-- ===== src/Scheduler/Root.antt =====
-- The root of the heap: the least loaded target, which has room while the group has.
use mathlib.Core.Path.{subst}
use native.Mathlib.Nat.{mul-le-mul_right, le_of_mul-le-mul_right}
use demo_submodule.Prelude.{
  ℕ, zero, suc, ◌*◌, ◌≤◌, ◌<◌, ◌≡◌, Bool, false, arith, sum_upto, dec_lt, ℕ_discrete,
}
use demo_submodule.TargetHeap.{TargetHeap, at, parent}
use demo_submodule.TargetHeap.Filled.{total}
use demo_submodule.TargetHeap.Up.{IsOrder, IsHeap}
use demo_submodule.Scheduler.{Sched, less}
use demo_submodule.Scheduler.Load.{IsLoaded, NoMore, less-NoMore, less-IsOrder}

-- In a heap no target is less than the root.
root_least_below :
    (fuel n c : ℕ) (less : ℕ → ℕ → Bool) (h : TargetHeap)
    → IsOrder less
    → IsHeap less n h
    → c < fuel
    → c < n
    → less (at h c) (at h 0) ≡ false
root_least_below zero n c less h o v f l = absurd (omega arith)
root_least_below (suc fuel) n zero less h o v f l = ground (arith, o.asym (at h 0) (at h 0))
root_least_below (suc fuel) n (suc c) less h o v f l =
    o.trans (at h (suc c)) (at h (parent (suc c))) (at h 0) (v (suc c) (omega arith) l)
      (root_least_below fuel n (parent (suc c)) less h o v (omega arith) (omega arith))

-- Of two sums in order, two summands are in order.
sum_lt : (n : ℕ) (f g : ℕ → ℕ) → sum_upto n f < sum_upto n g → (i : ℕ) × (i < n) × (f i < g i)
sum_lt zero f g h = absurd (omega arith)
sum_lt (suc n) f g h = elim (dec_lt (f n) (g n)) [
  | yes p ↦ (n, omega arith, p)
  | no p ↦ let (i, l, q) = sum_lt n f g (omega arith) in (i, omega arith, q)
]

pub sum_le : (n : ℕ) (f g : ℕ → ℕ) → ((c : ℕ) → c < n → f c ≤ g c) → sum_upto n f ≤ sum_upto n g
sum_le zero f g h = omega arith
sum_le (suc n) f g h = omega (arith, h n (omega arith), sum_le n f g (λ c l. h c (omega arith)))

-- A sum is less if one summand is less and none is more.
pub sum_less :
    (n i : ℕ) (f g : ℕ → ℕ)
    → i < n
    → ((c : ℕ) → c < n → f c ≤ g c)
    → f i < g i
    → sum_upto n f < sum_upto n g
sum_less zero i f g l h e = absurd (omega arith)
sum_less (suc n) i f g l h e = elim (ℕ_discrete i n) [
  | yes p ↦
      let last : f n < g n = subst (λ c. f c < g c) p e in
      omega (arith, last, sum_le n f g (λ c q. h c (omega arith)))
  | no p ↦
      omega (arith, h n (omega arith), sum_less n i f g (omega arith) (λ c q. h c (omega arith)) e)
]

room_below : (cur max cur' max' : ℕ) → 0 < max → cur' < max' → cur * max' ≤ cur' * max → cur < max
room_below cur max cur' max' pos room no_more = elim (dec_lt cur max) [
  | yes p ↦ p
  | no p ↦
      let le : max ≤ cur = omega arith in
      let product : max' * max ≤ cur' * max = grind (arith, mul-le-mul_right max' le) in
      absurd (omega (arith, le_of_mul-le-mul_right product pos))
]

module _ (s : Sched) (l : (t : ℕ) → IsLoaded (s.target_max t) (s.target_cur t)) (n : ℕ)
    (order : IsHeap (less s) n s.heap) where
  pub root-NoMore : (c : ℕ) → c < n → NoMore s (at s.heap 0) (at s.heap c)
  root-NoMore c h =
      less-NoMore s l (at s.heap c) (at s.heap 0)
        (root_least_below (suc c) n c (less s) s.heap (less-IsOrder s l) order (omega arith) h)

  -- While the loads of the targets stay below what they may carry together, the root has room.
  pub root-room :
      total n s.target_cur s.heap < total n s.target_max s.heap
      → (0 < n) × (s.target_cur (at s.heap 0) < s.target_max (at s.heap 0))
  root-room h =
      let (c, lc, room) =
        sum_lt n (λ c. s.target_cur (at s.heap c)) (λ c. s.target_max (at s.heap c)) h in
      let u = at s.heap c in
      let t = at s.heap 0 in
      let no_more = root-NoMore c lc in
      (
        omega arith,
        room_below (s.target_cur t) (s.target_max t) (s.target_cur u) (s.target_max u)
            (l t).some_load room no_more,
      )
