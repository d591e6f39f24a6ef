-- ===== src/Split/Rounds.antt =====
-- All the rounds of `construct_reorder_map`: the picked keys are the least ones, and the last of them,
-- the anchor, is the greatest of these.
use di_store.Base.{
  ℕ, zero, suc, ◌+◌, ◌≤◌, ◌<◌, ◌≡◌, refl, ap, Bool, true, false, List, [], ◌∷◌, arith, Bytes,
  str_lt, str_lt_irrefl, str_le_trans, length, get_or, set, replicate, length-set, get_or-set_self,
  length-replicate,
}
use native.Mathlib.Numerals.{add-one}
use native.Mathlib.Nat.{zero-add}
use di_store.Split.{Picks, select_min, pick_rounds, construct_reorder_map}
use di_store.Split.Select.{count_picked, PickedBelow, OthersAbove, select_min-least}

count_picked-set :
    (i : ℕ) (bs : List Bool) (ks : List Bytes)
    → i < length ks
    → get_or bs i true ≡ false
    → count_picked (set bs i true) ks ≡ suc (count_picked bs ks)
count_picked-set i [] ks h e = cc
count_picked-set i (b ∷ bs) [] h e = elim h [ ]
count_picked-set zero (true ∷ bs) (k ∷ ks) h e = cc
count_picked-set zero (false ∷ bs) (k ∷ ks) h e = refl
count_picked-set (suc i) (true ∷ bs) (k ∷ ks) h e =
    ap suc (count_picked-set i bs ks (omega arith) e)
count_picked-set (suc i) (false ∷ bs) (k ∷ ks) h e = count_picked-set i bs ks (omega arith) e

PickedBelow-set :
    (i : ℕ) (bs : List Bool) (ks : List Bytes) (bound : Bytes)
    → PickedBelow bound bs ks
    → str_lt bound (get_or ks i []) ≡ false
    → PickedBelow bound (set bs i true) ks
PickedBelow-set i [] ks bound h e = tt
PickedBelow-set zero (b ∷ bs) [] bound h e = tt
PickedBelow-set (suc i) (b ∷ bs) [] bound h e = tt
PickedBelow-set zero (true ∷ bs) (k ∷ ks) bound h e = h
PickedBelow-set zero (false ∷ bs) (k ∷ ks) bound h e = (e, h)
PickedBelow-set (suc i) (true ∷ bs) (k ∷ ks) bound h e = (h.0, PickedBelow-set i bs ks bound h.1 e)
PickedBelow-set (suc i) (false ∷ bs) (k ∷ ks) bound h e = PickedBelow-set i bs ks bound h e

OthersAbove-set :
    (i : ℕ) (bs : List Bool) (ks : List Bytes) (bound : Bytes)
    → OthersAbove bound bs ks
    → OthersAbove bound (set bs i true) ks
OthersAbove-set i [] ks bound h = tt
OthersAbove-set zero (b ∷ bs) [] bound h = tt
OthersAbove-set (suc i) (b ∷ bs) [] bound h = tt
OthersAbove-set zero (true ∷ bs) (k ∷ ks) bound h = h
OthersAbove-set zero (false ∷ bs) (k ∷ ks) bound h = h.1
OthersAbove-set (suc i) (true ∷ bs) (k ∷ ks) bound h = OthersAbove-set i bs ks bound h
OthersAbove-set (suc i) (false ∷ bs) (k ∷ ks) bound h = (h.0, OthersAbove-set i bs ks bound h.1)

PickedBelow-mono :
    (a b : Bytes) (bs : List Bool) (ks : List Bytes)
    → str_lt b a ≡ false
    → PickedBelow a bs ks
    → PickedBelow b bs ks
PickedBelow-mono a b [] ks e h = tt
PickedBelow-mono a b (x ∷ bs) [] e h = tt
PickedBelow-mono a b (true ∷ bs) (k ∷ ks) e h =
    (str_le_trans k a b h.0 e, PickedBelow-mono a b bs ks e h.1)
PickedBelow-mono a b (false ∷ bs) (k ∷ ks) e h = PickedBelow-mono a b bs ks e h

PickedBelow-none :
    (a : Bytes) (bs : List Bool) (ks : List Bytes) → count_picked bs ks ≡ 0 → PickedBelow a bs ks
PickedBelow-none a [] ks h = tt
PickedBelow-none a (x ∷ bs) [] h = tt
PickedBelow-none a (true ∷ bs) (k ∷ ks) h = absurd (omega arith)
PickedBelow-none a (false ∷ bs) (k ∷ ks) h = PickedBelow-none a bs ks h

OthersAbove-at :
    (bound : Bytes) (i : ℕ) (bs : List Bool) (ks : List Bytes)
    → OthersAbove bound bs ks
    → i < length ks
    → get_or bs i true ≡ false
    → str_lt (get_or ks i []) bound ≡ false
OthersAbove-at bound i [] ks o h e = cc
OthersAbove-at bound i (b ∷ bs) [] o h e = elim h [ ]
OthersAbove-at bound zero (true ∷ bs) (k ∷ ks) o h e = cc
OthersAbove-at bound zero (false ∷ bs) (k ∷ ks) o h e = o.0
OthersAbove-at bound (suc i) (true ∷ bs) (k ∷ ks) o h e =
    OthersAbove-at bound i bs ks o (omega arith) e
OthersAbove-at bound (suc i) (false ∷ bs) (k ∷ ks) o h e =
    OthersAbove-at bound i bs ks o.1 (omega arith) e

module _ (keys : List Bytes) where
  abbrev anchor_of : Picks → Bytes
  anchor_of s = get_or keys s.target []

  -- After n rounds, n of them at least one: n keys are picked, the target is the last of them, and it
  -- cuts the keys.
  pub record Cut (n : ℕ) (s : Picks) : Type 0 where
    pub covers : length keys ≤ length s.picked
    pub count : count_picked s.picked keys ≡ n
    pub within : s.target < length keys
    pub marked : get_or s.picked s.target false ≡ true
    pub below : PickedBelow (anchor_of s) s.picked keys
    pub above : OthersAbove (anchor_of s) s.picked keys

  abbrev round : ℕ → Picks → Picks
  round i s =
      let t = select_min keys s.target s.picked in
      record { target = t; picked = set s.picked t true; reorder_map = set s.reorder_map i t }

  round-Cut :
      (i n : ℕ) (s : Picks)
      → length keys ≤ length s.picked
      → count_picked s.picked keys ≡ n
      → n < length keys
      → PickedBelow (get_or keys (select_min keys s.target s.picked) []) s.picked keys
      → Cut (suc n) (round i s)
  round-Cut i n s covers count room below =
      let t = select_min keys s.target s.picked in
      let (f, o) = select_min-least keys s.target s.picked covers (omega arith) in
      record {
        covers = rw length-set covers;
        count = rw (count_picked-set t s.picked keys f.within f.free) (ap suc count);
        within = f.within;
        marked = get_or-set_self s.picked t true false (omega (arith, f.within));
        below = PickedBelow-set t s.picked keys _ below (str_lt_irrefl _);
        above = OthersAbove-set t s.picked keys _ o;
      }

  first-Cut :
      (i : ℕ) (s : Picks)
      → length keys ≤ length s.picked
      → count_picked s.picked keys ≡ 0
      → 0 < length keys
      → Cut 1 (round i s)
  first-Cut i s covers count room =
      round-Cut i 0 s covers count room (PickedBelow-none _ s.picked keys count)

  next-Cut : (i n : ℕ) (s : Picks) → Cut n s → n < length keys → Cut (suc n) (round i s)
  next-Cut i n s c room =
      let (f, o) = select_min-least keys s.target s.picked c.covers (omega (arith, c.count)) in
      round-Cut i n s c.covers c.count room (
        PickedBelow-mono (anchor_of s) _ s.picked keys
          (OthersAbove-at (anchor_of s) _ s.picked keys c.above f.within f.free) c.below)

  pick_rounds-Cut :
      (m i n : ℕ) (s : Picks) → Cut n s → m + n ≤ length keys → Cut (m + n) (pick_rounds keys m i s)
  unfolding pick_rounds
  pick_rounds-Cut zero i n s c room = let e : 0 + n ≡ n = omega arith in rw e c
  pick_rounds-Cut (suc m) i n s c room =
      let e : suc m + n ≡ m + suc n = omega arith in
      rw e (
        pick_rounds-Cut m (suc i) (suc n) (round i s) (next-Cut i n s c (omega arith))
          (omega arith))

  reorder_map-target :
      (m i : ℕ) (s : Picks)
      → i + m < length s.reorder_map
      → get_or (pick_rounds keys (suc m) i s).reorder_map (i + m) 0
        ≡ (pick_rounds keys (suc m) i s).target
  unfolding pick_rounds
  reorder_map-target zero i s h =
      let e : i + 0 ≡ i = omega arith in rw e (get_or-set_self s.reorder_map i _ 0 (omega arith))
  reorder_map-target (suc m) i s h =
      let e : i + suc m ≡ suc i + m = omega arith in
      rw e (reorder_map-target m (suc i) (round i s) (rw length-set (omega arith)))

count_picked-unset :
    (i : ℕ) (bs : List Bool) (ks : List Bytes)
    → i < length ks
    → get_or bs i false ≡ true
    → suc (count_picked (set bs i false) ks) ≡ count_picked bs ks
count_picked-unset i [] ks h e = cc
count_picked-unset i (b ∷ bs) [] h e = elim h [ ]
count_picked-unset zero (true ∷ bs) (k ∷ ks) h e = refl
count_picked-unset zero (false ∷ bs) (k ∷ ks) h e = cc
count_picked-unset (suc i) (true ∷ bs) (k ∷ ks) h e =
    ap suc (count_picked-unset i bs ks (omega arith) e)
count_picked-unset (suc i) (false ∷ bs) (k ∷ ks) h e = count_picked-unset i bs ks (omega arith) e

PickedBelow-unset :
    (i : ℕ) (bs : List Bool) (ks : List Bytes) (bound : Bytes)
    → PickedBelow bound bs ks
    → PickedBelow bound (set bs i false) ks
PickedBelow-unset i [] ks bound h = tt
PickedBelow-unset zero (b ∷ bs) [] bound h = tt
PickedBelow-unset (suc i) (b ∷ bs) [] bound h = tt
PickedBelow-unset zero (true ∷ bs) (k ∷ ks) bound h = h.1
PickedBelow-unset zero (false ∷ bs) (k ∷ ks) bound h = h
PickedBelow-unset (suc i) (true ∷ bs) (k ∷ ks) bound h = (h.0, PickedBelow-unset i bs ks bound h.1)
PickedBelow-unset (suc i) (false ∷ bs) (k ∷ ks) bound h = PickedBelow-unset i bs ks bound h

OthersAbove-unset :
    (i : ℕ) (bs : List Bool) (ks : List Bytes) (bound : Bytes)
    → OthersAbove bound bs ks
    → str_lt (get_or ks i []) bound ≡ false
    → OthersAbove bound (set bs i false) ks
OthersAbove-unset i [] ks bound h e = tt
OthersAbove-unset zero (b ∷ bs) [] bound h e = tt
OthersAbove-unset (suc i) (b ∷ bs) [] bound h e = tt
OthersAbove-unset zero (true ∷ bs) (k ∷ ks) bound h e = (e, h)
OthersAbove-unset zero (false ∷ bs) (k ∷ ks) bound h e = (e, h.1)
OthersAbove-unset (suc i) (true ∷ bs) (k ∷ ks) bound h e = OthersAbove-unset i bs ks bound h e
OthersAbove-unset (suc i) (false ∷ bs) (k ∷ ks) bound h e =
    (h.0, OthersAbove-unset i bs ks bound h.1 e)

count_picked_nothing : (n : ℕ) (ks : List Bytes) → count_picked (replicate n false) ks ≡ 0
count_picked_nothing zero ks = refl
count_picked_nothing (suc n) [] = refl
count_picked_nothing (suc n) (k ∷ ks) = count_picked_nothing n ks

-- What the split needs of the picks, once the anchor is given to the right node.
pub record IsCut (keys : List Bytes) (n anchor : ℕ) (picked : List Bool) : Type 0 where
  pub covers : length keys ≤ length picked
  pub count : count_picked picked keys ≡ n
  pub within : anchor < length keys
  pub unmarked : get_or picked anchor true ≡ false
  pub below : PickedBelow (get_or keys anchor []) picked keys
  pub above : OthersAbove (get_or keys anchor []) picked keys

Cut-IsCut :
    (keys : List Bytes) (n : ℕ) (s : Picks)
    → Cut keys (suc n) s
    → IsCut keys n s.target (set s.picked s.target false)
Cut-IsCut keys n s c = record {
  covers = rw length-set c.covers;
  count = omega (arith, count_picked-unset s.target s.picked keys c.within c.marked, c.count);
  within = c.within;
  unmarked = get_or-set_self s.picked s.target false true (omega (arith, c.within, c.covers));
  below = PickedBelow-unset s.target s.picked keys _ c.below;
  above = OthersAbove-unset s.target s.picked keys _ c.above (str_lt_irrefl _);
}

all_rounds-Cut :
    (keys : List Bytes) (m : ℕ) (s : Picks)
    → length keys ≤ length s.picked
    → count_picked s.picked keys ≡ 0
    → m < length keys
    → Cut keys (suc m) (pick_rounds keys (suc m) 0 s)
unfolding pick_rounds
all_rounds-Cut keys m s covers count room = rw (← add-one) (
    pick_rounds-Cut keys m 1 1 (round keys 0 s) (first-Cut keys 0 s covers count (omega arith))
      (omega arith))

-- With more than `left_cap` keys and arrays that are long enough, `construct_reorder_map` returns: once
-- the last round's index is unmarked, exactly `left_cap` keys are marked, none of them lies above the
-- key at that index, and no other key lies below it.
pub construct_reorder_map-IsCut :
    (keys : List Bytes) (left_cap size : ℕ)
    → left_cap < length keys
    → length keys ≤ size
    → (let r = construct_reorder_map keys left_cap (replicate size false) (replicate size 0) in
        let a = get_or r.reorder_map left_cap 0 in
        (a ≡ r.target) × IsCut keys left_cap a (set r.picked a false))
unfolding construct_reorder_map
construct_reorder_map-IsCut keys left_cap size room fits =
    let start : Picks = record {
      target = 0;
      picked = replicate size false;
      reorder_map = replicate size 0;
    } in
    let end : Picks = pick_rounds keys (suc left_cap) 0 start in
    let e : get_or end.reorder_map left_cap 0 ≡ end.target =
      rw (zero-add left_cap) at
        (reorder_map-target keys left_cap 0 start (rw length-replicate (omega arith))) in
    let cut : Cut keys (suc left_cap) end =
      all_rounds-Cut keys left_cap start (rw length-replicate fits) (count_picked_nothing size keys)
        room in
    rw (add-one, e) (refl, Cut-IsCut keys left_cap end cut)
