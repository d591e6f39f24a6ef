-- ===== src/Compute/SplitPut.antt =====
-- What a put that splits leaves in remote memory, and the instantiation in `put14` that is too small.
use di_store.Base.{
  ℕ, ◌+◌, ◌≤◌, ◌<◌, ◌≡◌, ◌≢◌, refl, sym, ap, ◌∙◌, true, false, some, List, arith, Bytes, str_lt,
  if◌then◌else◌, get_or,
}
use di_store.DataLayer.{Kv, LinkedNode, LinkedNodeType, no_pair}
use di_store.DataLayer.Find.{entries, lookup, IsWellFormed}
use di_store.Split.Records.{IsTarget, IsSplit, split_records-IsSplit}
use di_store.Compute.{Remote, is_nullptr, Outside, overwrite, write_node, capacity}
use di_store.Compute.WriteBack.{write_back_splitted}
use di_store.Compute.Memory.{write_node_self, write_node_ne, entries-overwrite, overwrite_beyond}
use di_store.Compute.Put.{
  Winner, Attempt, PutResult, gather, out_of_place_split_node, put_splitted, sealed,
}

-- The outcome of a split put over the records of `before`: the left half at `out.left`, the right half
-- at `out.right` under a new node of the search layer with the anchor, and each key in its half.
pub record Routed (before : LinkedNode) (out : Outside) (anchor : Bytes) (rtype : LinkedNodeType)
    (r : PutResult) : Type 0 where
  pub completed : r.completed ≡ true
  pub left_at : r.node.data_node ≡ out.left
  pub linked : r.linked ≡ some (record { anchor = anchor; data_node = out.right; type = rtype })
  pub found :
      (j : Bytes)
      → lookup j (entries before) ≡ (
          if str_lt j anchor
          then lookup j (entries (r.memory out.left))
          else lookup j (entries (r.memory out.right)))

-- The write completes, the right half's place is not null, and the halves have two places.
pub record Places (out : Outside) : Type 0 where
  pub completed : out.completed ≡ true
  pub there : is_nullptr out.right ≡ false
  pub apart : out.left ≢ out.right

-- What the split path needs: the records gathered are a sound buffer with more than `left_cap` of
-- them, and the two nodes have room for their shares.
pub record CanSplit (city : Bytes → ℕ) (left_cap : ℕ) (w : Winner) (a : Attempt) (tmp : LinkedNode)
    : Type 0 where
  pub sound : IsWellFormed city 21 tmp
  pub more : left_cap < tmp.next
  pub left_room : left_cap ≤ 16
  pub right_room : tmp.next ≤ left_cap + 16
  pub left_target : IsTarget city a.serving.real
  pub right_target : IsTarget city w.third

module _ (city : Bytes → ℕ) (checksum : List Kv → ℕ) (out : Outside) (key value : Bytes)
    (w : Winner) (a : Attempt) (left_cap : ℕ) where
  abbrev pub tmp : LinkedNode
  tmp = (gather city key value w a).real

  abbrev pub halves : LinkedNode × LinkedNode × Bytes
  halves = out_of_place_split_node city key value left_cap w a

  pub halves-IsSplit :
      CanSplit city left_cap w a tmp → IsSplit city tmp left_cap halves.0 halves.1 halves.2
  unfolding out_of_place_split_node
  halves-IsSplit c =
      split_records-IsSplit city tmp left_cap a.serving.real w.third c.sound c.more c.left_room
        c.right_room c.left_target c.right_target

  module _ (ltype rtype : LinkedNodeType) (lcap rcap : ℕ) (p : Places out) where
    abbrev pub result : PutResult
    result = put_splitted city checksum out key value left_cap ltype rtype lcap rcap w a

    -- The right node as it is written: sealed, and linked to where the source linked.
    abbrev pub right_written : LinkedNode
    right_written = record (sealed checksum rtype halves.1) { rlink = halves.0.rlink }

    abbrev pub left_written : LinkedNode
    left_written = record (sealed checksum ltype halves.0) { rlink = out.right }

    -- The memory with the predecessor written, and then with the left node too.
    abbrev pub beneath : Remote
    beneath =
        let pred = (gather city key value w a).pred in
        write_node a.memory w.backward (capacity pred.type) (record pred { rlink = out.left })

    abbrev pub halfway : Remote
    halfway = write_node beneath out.left lcap left_written

    result-memory : result.memory ≡ write_node halfway out.right rcap right_written
    unfolding put_splitted write_back_splitted
    result-memory = simp p.completed

    pub result-right : result.memory out.right ≡ overwrite rcap (halfway out.right) right_written
    result-right =
        ap (λ (m : Remote). m out.right) result-memory
        ∙ write_node_self halfway out.right rcap right_written

    pub result-left : result.memory out.left ≡ overwrite lcap (beneath out.left) left_written
    result-left =
        ap (λ (m : Remote). m out.left) result-memory
        ∙ write_node_ne halfway out.right out.left rcap right_written p.apart
        ∙ write_node_self beneath out.left lcap left_written

    pub result-linked :
        (result.completed ≡ true)
        × (result.node.data_node ≡ out.left)
        × (result.linked ≡ some (record { anchor = halves.2; data_node = out.right; type = rtype }))
    unfolding put_splitted write_back_splitted
    result-linked = simp (p.completed, p.there) (refl, refl, refl)

    -- A put that splits, at capacities that hold both halves, when the write completes: it succeeds,
    -- the search layer's node points to the left half and a node with the anchor is linked for the
    -- right half, and every key is found, in the half to which the anchor sends it in remote memory,
    -- with the value that the gathered records have for it.
    pub put_splitted-Routed :
        CanSplit city left_cap w a tmp
        → left_cap ≤ lcap
        → lcap ≤ 16
        → tmp.next ≤ left_cap + rcap
        → rcap ≤ 16
        → Routed tmp out halves.2 rtype result
    put_splitted-Routed c l1 l2 r1 r2 =
        let s = halves-IsSplit c in
        let l_sound = s.left_sound lcap l1 l2 in
        let r_sound = s.right_sound rcap (omega (arith, s.right_count)) r2 in
        let (x, y, z) = result-linked in
        record {
          completed = x;
          left_at = y;
          linked = z;
          found = λ j.
              rw
                (
                  result-left,
                  result-right,
                  entries-overwrite lcap (beneath out.left) left_written l_sound.room
                      l_sound.has_pairs,
                  entries-overwrite rcap (halfway out.right) right_written r_sound.room
                      r_sound.has_pairs,
                )
                (s.routed j);
        }

    -- The right node in memory: its count of records, and the pair behind the capacity written.
    pub result-beyond :
        CanSplit city left_cap w a tmp
        → rcap ≤ 16
        → out.right ≢ w.backward
        → (i : ℕ) → rcap ≤ i
        → (left_cap + (result.memory out.right).next ≡ tmp.next)
          × (get_or (result.memory out.right).pairs i no_pair
              ≡ get_or (a.memory out.right).pairs i no_pair)
    result-beyond c r2 clear i h =
        let s = halves-IsSplit c in
        let untouched : halfway out.right ≡ a.memory out.right =
          write_node_ne beneath out.left out.right lcap left_written (λ e. p.apart (sym e))
          ∙ write_node_ne a.memory w.backward out.right _ _ clear in
        (
          rw result-right s.right_count,
          rw result-right (
              overwrite_beyond rcap i (halfway out.right) right_written h
                (omega (arith, s.right_pairs))
              ∙ ap (λ (n : LinkedNode). get_or n.pairs i no_pair) untouched),
        )
