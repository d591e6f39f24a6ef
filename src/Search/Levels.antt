-- ===== src/Search/Levels.antt =====
-- search_layer.hpp, `random_level`.
use di_store.Base.{ℕ, ◌+◌, ◌≤◌, ◌<◌, ◌≡◌, List, [], ◌∷◌, ◌++◌, All, arith, length, min}
use di_store.Search.{max_level}
use di_store.Search.Update.{threshold, count_low, random_level}

count_low-append :
    (lows rest : List ℕ) (r : ℕ)
    → All (λ x. x < threshold) lows
    → threshold ≤ r
    → count_low (lows ++ r ∷ rest) ≡ length lows
unfolding count_low
count_low-append [] rest r a over = ground arith
count_low-append (l ∷ lows) rest r a over =
    let less = a.0 in ground (arith, count_low-append lows rest r a.1 over)

-- For calls of `random()` of which one is not below the threshold, `random_level` is from 1 to 16: it is one more than the number of results
-- below the threshold before the first that is not, and at most 16.
pub random_level-bounds :
    (lows rest : List ℕ) (r : ℕ)
    → All (λ x. x < threshold) lows
    → threshold ≤ r
    → (1 ≤ random_level (lows ++ r ∷ rest))
      × (random_level (lows ++ r ∷ rest) ≤ max_level)
      × (random_level (lows ++ r ∷ rest) ≡ min (length lows + 1) max_level)
unfolding random_level
random_level-bounds lows rest r a over =
    let e = count_low-append lows rest r a over in rw e (ground arith)
