-- ===== src/Parallel/Countdown.antt =====
-- The count of a parallel task.
pub mod Round
pub mod Dispatch
use demo_submodule.Prelude.{
  ℕ, ◌+◌, ◌-◌, ◌<◌, ◌≤◌, ◌≡◌, refl, ap, Bool, true, false, Option, none, some, List, [], ◌∷◌, ◌==◌,
  if◌then◌else◌, update, length, count, erase, arith, Bool-cases, inl, inr,
}
use demo_submodule.Parallel.Running.{Running}

abbrev pub is_kid : Option ℕ → ℕ → Bool
is_kid none p = false
is_kid (some q) p = q == p

-- How many tasks of the list have the parent `p`.
abbrev pub kids : (ℕ → Option ℕ) → ℕ → List ℕ → ℕ
kids parent p [] = 0
kids parent p (t ∷ ts) = (if is_kid (parent t) p then 1 else 0) + kids parent p ts

pub kids-erase :
    (parent : ℕ → Option ℕ) (p t : ℕ) (ts : List ℕ)
    → 0 < count t ts
    → kids parent p (erase t ts) + (if is_kid (parent t) p then 1 else 0) ≡ kids parent p ts
kids-erase parent p t [] h = absurd (omega arith)
kids-erase parent p t (x ∷ ts) h = elim (Bool-cases (x == t)) [
  | inl e ↦
      let same : is_kid (parent x) p ≡ is_kid (parent t) p =
        ap (λ (w : ℕ). is_kid (parent w) p) (ground (arith, e)) in
      rw e (ground (arith, same))
  | inr e ↦ rw e (ground (arith, kids-erase parent p t ts (ground (arith, h, e))))
]

pub kids-update :
    (parent : ℕ → Option ℕ) (p c : ℕ) (o : Option ℕ) (ts : List ℕ)
    → count c ts ≡ 0
    → kids (update parent c o) p ts ≡ kids parent p ts
kids-update parent p c o [] h = refl
kids-update parent p c o (x ∷ ts) h =
    let other : (x == c) ≡ false = ground (arith, h) in
    rw other (ground (arith, kids-update parent p c o ts (ground (arith, h))))

-- A parallel task that has set its count runs, and counts its subtasks, or the tasks that came after
-- them, that are not at their end, and those that are to be dispatched; another has none.
pub record IsCounting (r : Running) : Type 0 where
  pub once : (t : ℕ) → count t r.active + count t r.doing ≤ 1
  pub counted :
      (p : ℕ)
      → r.opened p ≡ true
      → r.tasks.nleft p
        ≡ kids r.tasks.parent p r.active + kids r.tasks.parent p r.doing + length (r.pending p)
  pub closed :
      (p : ℕ)
      → r.opened p ≡ false
      → kids r.tasks.parent p r.active + kids r.tasks.parent p r.doing + length (r.pending p) ≡ 0
  pub runs : (p : ℕ) → r.opened p ≡ true → (0 < r.tasks.nleft p) × (count p r.active ≡ 1)
