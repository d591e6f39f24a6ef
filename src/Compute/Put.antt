-- ===== src/Compute/Put.antt =====
-- compute_node.hpp, `try_put_to_existing_node`, and compute_node.cpp, `put10` to `put16`,
-- `eager_morph`, `out_of_place_split_node`: the winner's part of a put, from the two fetched buffers
-- on. Modelled with the queue as it is when the winner comes to it: `max_depth` is -1 then, so other
-- threads wait. The throw at the end of a failed put is the result `completed = false`.
use di_store.Base.{
  ℕ, ◌+◌, Bool, true, false, not, Option, none, some, List, [], ◌∷◌, ◌++◌, Bytes, ◌==◌, leb,
  if◌then◌else◌, length, take, replicate,
}
use di_store.DataLayer.{Kv, LinkedNode, LinkedNodeType, type10, type12, type16, crc_validate, store}
use di_store.Split.{split_records}
use di_store.Compute.{SkipListNode, Remote, is_nullptr, Outside}
use di_store.Compute.Requests.{Serving, help_others, serve_loop}
use di_store.Compute.WriteBack.{
  morph_node, write_back_current, write_back_morphed, write_back_splitted,
}

-- What the winner works with: the buffers and the queue, the third buffer and the stack memory under
-- the pairs of a `BufferNode` (five pairs more than a node has), whose contents are not initialised.
pub record Winner : Type 0 where
  pub serving : Serving
  pub third : LinkedNode
  pub stack_pairs : List Kv
  pub node : SkipListNode
  -- `data_node->backward->data_node`
  pub backward : ℕ
  pub memory : Remote

pub record Attempt : Type 0 where
  pub serving : Serving
  pub memory : Remote
  pub done : Bool
  pub pendings : ℕ

pub record PutResult : Type 0 where
  pub serving : Serving
  pub node : SkipListNode
  pub memory : Remote
  -- the node that `async_update` links behind `node`
  pub linked : Option SkipListNode
  pub completed : Bool

abbrev pub sealed : (List Kv → ℕ) → LinkedNodeType → LinkedNode → LinkedNode
sealed checksum t node =
    let typed : LinkedNode = record node { type = t } in
    record typed { crc = crc_validate checksum typed t }

-- `BufferNode tmp_node;` with the source's fingerprints and pairs copied in
abbrev pub buffer_of : Winner → LinkedNode → LinkedNode
buffer_of w source = record source {
  fingerprints = take 16 source.fingerprints ++ replicate 5 0;
  pairs = take 16 source.pairs ++ w.stack_pairs;
}

abbrev pub finished : Winner → Attempt → PutResult
finished w a = record {
  serving = a.serving;
  node = w.node;
  memory = a.memory;
  linked = none;
  completed = true;
}

module _ (city : Bytes → ℕ) (key value : Bytes) where
  -- `if (!done) real->store(key, value);`, at the capacity of the buffer
  abbrev pub store_own : ℕ → Bool → Serving → Serving
  store_own cap true s = s
  store_own cap false s = record s { real = (store city cap key value s.real).0 }

  -- What `out_of_place_split_node` works on after the requests are served.
  unfoldable pub gather : Winner → Attempt → Serving
  gather w a =
      let tmp = record (a.serving) { real = buffer_of w a.serving.real } in
      help_others city 21 w.node.anchor (store_own 21 a.done tmp)

  unfoldable pub out_of_place_split_node : ℕ → Winner → Attempt → LinkedNode × LinkedNode × Bytes
  out_of_place_split_node left_cap w a =
      split_records (gather w a).real left_cap a.serving.real w.third

module _ (city : Bytes → ℕ) (out : Outside) (key value : Bytes) where
  -- `try_put_to_existing_node<LinkedNode{cap}>`
  unfoldable pub try_put_to_existing_node : ℕ → Winner → Attempt
  try_put_to_existing_node cap w =
      let (real, stored) = store city cap key value w.serving.real in
      let served = help_others city cap w.node.anchor (record (w.serving) { real = real }) in
      let (m, written) = write_back_current out w.node.data_node cap served.real w.memory in
      if stored
      then elim (served.requests) [
        | [] ↦ record { serving = served; memory = m; done = written; pendings = 0 }
        | r ∷ rs ↦ record {
          serving = served;
          memory = w.memory;
          done = true;
          pendings = length (r ∷ rs);
        }
      ]
      else record {
        serving = record (w.serving) { real = real };
        memory = w.memory;
        done = false;
        pendings = length w.serving.requests + 1;
      }

module _ (city : Bytes → ℕ) (checksum : List Kv → ℕ) (out : Outside) (key value : Bytes) where
  -- `put10` after the attempt: the node is written at the type that `morph_node` finds.
  unfoldable pub put_morphed : Winner → Attempt → PutResult
  put_morphed w a =
      let s = store_own city key value 16 a.done a.serving in
      let served = serve_loop city w.node.anchor s.pred s.real s.requests s.replies in
      let real = sealed checksum (morph_node served.real) served.real in
      let written = write_back_morphed out w.backward w.node served.pred real a.memory in
      record {
        serving = record served { pred = written.pred; real = real };
        node = record (written.node) { data_node = written.pointer; type = real.type };
        memory = written.memory;
        linked = none;
        completed = not (written.pointer == 0);
      }

  unfoldable pub eager_morph : Winner → Attempt → PutResult
  eager_morph w a =
      let served =
        help_others city 16 w.node.anchor (store_own city key value 16 a.done a.serving) in
      let real = sealed checksum type16 served.real in
      let written = write_back_morphed out w.backward w.node served.pred real a.memory in
      let node = written.node in
      let morphed : SkipListNode = record node { data_node = written.pointer; type = type16 } in
      record {
        serving = record served { pred = written.pred; real = real };
        node = if written.pointer == 0 then node else morphed;
        memory = written.memory;
        linked = none;
        completed = not (written.pointer == 0);
      }

  -- A split, the types of its nodes, and the capacities that `write_back_splitted` is instantiated at.
  unfoldable pub put_splitted :
      ℕ → LinkedNodeType → LinkedNodeType → ℕ → ℕ → Winner → Attempt → PutResult
  put_splitted left_cap ltype rtype lcap rcap w a =
      let served = gather city key value w a in
      let (l, r, ranchor) = out_of_place_split_node city key value left_cap w a in
      let left = sealed checksum ltype l in
      let right = sealed checksum rtype r in
      let written =
        write_back_splitted out lcap rcap w.backward w.node served.pred left right a.memory in
      let fresh : SkipListNode = record {
        anchor = ranchor;
        data_node = written.pointer;
        type = rtype;
      } in
      record {
        serving = record served { pred = written.pred };
        node = record (written.node) { type = ltype };
        memory = written.memory;
        linked = if is_nullptr written.pointer then none else some fresh;
        completed = not (is_nullptr written.pointer);
      }

  unfoldable pub put10 : Winner → PutResult
  put10 w =
      let a = try_put_to_existing_node city out key value 10 w in
      if a.pendings == 0 then finished w a else put_morphed w a

  unfoldable pub put12 : Winner → PutResult
  put12 w =
      let a = try_put_to_existing_node city out key value 12 w in
      if a.pendings == 0
      then finished w a
      else (if leb a.pendings 4 then eager_morph w a else put_splitted 9 type10 type10 10 10 w a)

  unfoldable pub put14 : Winner → PutResult
  put14 w =
      let a = try_put_to_existing_node city out key value 14 w in
      if a.pendings == 0
      then finished w a
      else (if leb a.pendings 2 then eager_morph w a else put_splitted 8 type10 type12 10 10 w a)

  unfoldable pub put16 : Winner → PutResult
  put16 w =
      let a = try_put_to_existing_node city out key value 16 w in
      if a.pendings == 0
      then finished w a
      else (if leb a.pendings 2
          then put_splitted 9 type10 type10 10 10 w a
          else (if leb a.pendings 4
              then put_splitted 9 type10 type12 10 12 w a
              else put_splitted 10 type12 type12 12 12 w a))
