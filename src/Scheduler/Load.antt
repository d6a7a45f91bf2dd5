-- ===== src/Scheduler/Load.antt =====
-- The order of the targets by their load, in proportion to what they may carry.
use native.Mathlib.Nat.{mul-le-mul, mul-le-mul_right, le_of_mul-le-mul_right}
use demo_submodule.Prelude.{
  ℕ, ◌-◌, ◌*◌, ◌%◌, ◌^◌, ◌≤◌, ◌<◌, ◌≡◌, false, ◌==◌, update, arith, ==_iff, Bool-cases, inl, inr,
}
use demo_submodule.Cstring.{size_mod}
use demo_submodule.TargetHeap.Up.{IsOrder}
use demo_submodule.TargetHeap.Keeps.{OnlyAt}
use demo_submodule.Scheduler.{Sched, less}

-- The loads of a target, as `init` and the operations leave them.
pub record IsLoaded (max cur : ℕ) : Type 0 where
  pub some_load : 0 < max
  pub small : max < 2 ^ 32
  pub within : cur ≤ max

-- `a` is loaded no more than `b`, in proportion.
abbrev pub NoMore : Sched → ℕ → ℕ → Type 0
NoMore s a b = s.target_cur a * s.target_max b ≤ s.target_cur b * s.target_max a

product_small : (a b : ℕ) → a < 2 ^ 32 → b < 2 ^ 32 → (a * b) % size_mod ≡ a * b
product_small a b h k =
    let bound : a * b ≤ (2 ^ 32 - 1) * (2 ^ 32 - 1) =
      mul-le-mul {n₁ = a} {m₁ = b} {n₂ = 2 ^ 32 - 1} {m₂ = 2 ^ 32 - 1} (omega arith)
        (omega arith) in
    omega (arith, bound)

module _ (s : Sched) (l : (t : ℕ) → IsLoaded (s.target_max t) (s.target_cur t)) where
  pub less-NoMore : (a b : ℕ) → less s a b ≡ false → NoMore s b a
  unfolding less
  less-NoMore a b h = ground (
    arith,
    product_small (s.target_cur a) (s.target_max b) (omega (arith, (l a).small, (l a).within))
        (l b).small,
    product_small (s.target_cur b) (s.target_max a) (omega (arith, (l b).small, (l b).within))
        (l a).small,
  )

  pub NoMore-less : (a b : ℕ) → NoMore s b a → less s a b ≡ false
  unfolding less
  NoMore-less a b h = ground (
    arith,
    product_small (s.target_cur a) (s.target_max b) (omega (arith, (l a).small, (l a).within))
        (l b).small,
    product_small (s.target_cur b) (s.target_max a) (omega (arith, (l b).small, (l b).within))
        (l a).small,
  )

  NoMore-trans : (a b c : ℕ) → NoMore s a b → NoMore s b c → NoMore s a c
  NoMore-trans a b c h k =
      le_of_mul-le-mul_right {k = s.target_max b}
        (grind (arith, mul-le-mul_right (s.target_max c) h, mul-le-mul_right (s.target_max a) k))
        (l b).some_load

  pub less-IsOrder : IsOrder (less s)
  unfolding less
  less-IsOrder = record {
    asym = λ a b h. ground arith;
    trans =
        λ a b c h k. NoMore-less a c (NoMore-trans c b a (less-NoMore b c k) (less-NoMore a b h));
  }

less_irrefl : (s : Sched) (a : ℕ) → less s a a ≡ false
unfolding less
less_irrefl s a = ground arith

-- The state with another load on one target.
abbrev pub with_load : ℕ → ℕ → Sched → Sched
with_load t x s = record s { target_cur = update s.target_cur t x }

pub with_load-IsLoaded :
    (t x : ℕ) (s : Sched)
    → ((u : ℕ) → IsLoaded (s.target_max u) (s.target_cur u))
    → x ≤ s.target_max t
    → (u : ℕ) → IsLoaded (s.target_max u) ((with_load t x s).target_cur u)
with_load-IsLoaded t x s l h u = record {
  some_load = (l u).some_load;
  small = (l u).small;
  within = ground (arith, (l u).within);
}

module _ (t x : ℕ) (s : Sched) (l : (u : ℕ) → IsLoaded (s.target_max u) (s.target_cur u))
    (h : x ≤ s.target_max t) where
  loaded : (u : ℕ) → IsLoaded (s.target_max u) ((with_load t x s).target_cur u)
  loaded = with_load-IsLoaded t x s l h

  pub with_load-IsOrder : IsOrder (less (with_load t x s))
  with_load-IsOrder = less-IsOrder (with_load t x s) loaded

  pub with_load-OnlyAt : OnlyAt t (less s) (less (with_load t x s))
  unfolding less
  with_load-OnlyAt = record { others = λ a b p q. ground arith }

  -- More load: nothing comes to stand above the target.
  pub with_load-grew :
      s.target_cur t ≤ x → (a : ℕ) → less s t a ≡ false → less (with_load t x s) t a ≡ false
  with_load-grew m a e = elim (Bool-cases (a == t)) [
    | inl z ↦ rw ((==_iff a t).0 z) (less_irrefl (with_load t x s) t)
    | inr z ↦
        let old : NoMore s a t = less-NoMore s l t a e in
        let more = mul-le-mul_right (s.target_max a) m in
        NoMore-less (with_load t x s) loaded t a (ground (arith, old, more))
  ]

  -- Less load: the target comes to stand below nothing.
  pub with_load-shrank :
      x ≤ s.target_cur t → (a : ℕ) → less s a t ≡ false → less (with_load t x s) a t ≡ false
  with_load-shrank m a e = elim (Bool-cases (a == t)) [
    | inl z ↦ rw ((==_iff a t).0 z) (less_irrefl (with_load t x s) t)
    | inr z ↦
        let old : NoMore s t a = less-NoMore s l a t e in
        let more = mul-le-mul_right (s.target_max a) m in
        NoMore-less (with_load t x s) loaded a t (ground (arith, old, more))
  ]
