-- ===== src/Series/Window.antt =====
-- A window of the ring: the elements that stand from an index on, going round at the end.
use demo_submodule.Prelude.{
  ℕ, zero, suc, ◌+◌, ◌-◌, ◌≤◌, ◌<◌, ◌≡◌, refl, ap, List, [], ◌∷◌, ◌++◌, arith, leb, if◌then◌else◌,
  length, get_or, set, get_or-set_ne, take, drop,
}
use demo_submodule.Series.{next}

-- `k` elements from index `i`.
unfoldable pub window : List ℕ → ℕ → ℕ → ℕ → List ℕ
window q size i zero = []
window q size i (suc k) = get_or q i 0 ∷ window q size (next size i) k

-- How many steps it is from one index round to another.
abbrev pub distance : ℕ → ℕ → ℕ → ℕ
distance size i j = if leb i j then j - i else j + size - i

pub length-window : (q : List ℕ) (size i k : ℕ) → length (window q size i k) ≡ k
unfolding window
length-window q size i zero = refl
length-window q size i (suc k) = ap suc (length-window q size (next size i) k)

-- A write at an index that the window does not reach.
pub window-set_ne :
    (q : List ℕ) (size i j v k : ℕ)
    → i < size
    → j < size
    → k ≤ distance size i j
    → window (set q j v) size i k ≡ window q size i k
unfolding window
window-set_ne q size i j v zero hi hj h = refl
window-set_ne q size i j v (suc k) hi hj h =
    ground (arith, get_or-set_ne q j i v 0, window-set_ne q size (next size i) j v k)

-- The window with one more element at its end.
pub window-snoc :
    (q : List ℕ) (size i j k : ℕ)
    → i < size
    → j < size
    → distance size i j ≡ k
    → window q size i (suc k) ≡ window q size i k ++ get_or q j 0 ∷ []
unfolding window
window-snoc q size i j zero hi hj h = ground arith
window-snoc q size i j (suc k) hi hj h =
    ap (◌∷◌ (get_or q i 0)) (window-snoc q size (next size i) j k (ground arith) hj (ground arith))

drop-get_or : (q : List ℕ) (i : ℕ) → i < length q → get_or q i 0 ∷ drop (suc i) q ≡ drop i q
drop-get_or [] i h = elim h [ ]
drop-get_or (x ∷ q) zero h = refl
drop-get_or (x ∷ q) (suc i) h = drop-get_or q i (omega arith)

-- A window that does not reach the end of the array.
pub window-take :
    (q : List ℕ) (size i k : ℕ)
    → i + k ≤ length q
    → i + k < size
    → window q size i k ≡ take k (drop i q)
unfolding window
window-take q size i zero h hs = refl
window-take q size i (suc k) h hs =
    let step : next size i ≡ suc i = ground arith in
    rw (step, ← drop-get_or q i (omega arith))
      (ap (◌∷◌ (get_or q i 0)) (window-take q size (suc i) k (omega arith) (omega arith)))
