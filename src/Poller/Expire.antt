-- ===== src/Poller/Expire.antt =====
-- What __poller_handle_timeout hands over.
pub mod Loops
use demo_submodule.Prelude.{
  ℕ, ◌+◌, ◌-◌, ◌≡◌, refl, ap, false, Option, List, [], ◌∷◌, if◌then◌else◌, count, arith, Bool-cases,
  inl, inr,
}
use demo_submodule.Poller.{Poller, Timespec, earlier, with_entry}
use demo_submodule.Poller.Order.{NotAfter, NotAfter-trans, NoneBefore, IsSorted}

-- The nodes whose deadline is before `now`, or is not, in their order.
abbrev pub overdue : (timeout : ℕ → Timespec) → (now : Timespec) → List ℕ → List ℕ
overdue timeout now [] = []
overdue timeout now (x ∷ xs) =
    let rest = overdue timeout now xs in if earlier (timeout x) now then x ∷ rest else rest

abbrev pub in_time : (timeout : ℕ → Timespec) → (now : Timespec) → List ℕ → List ℕ
in_time timeout now [] = []
in_time timeout now (x ∷ xs) =
    let rest = in_time timeout now xs in if earlier (timeout x) now then rest else x ∷ rest

-- The table of the nodes without those of a list.
abbrev pub clear_all {ℓ} : {A : Type ℓ} → A → (ℕ → Option ℕ) → List ℕ → (ℕ → A) → ℕ → A
clear_all a fd [] table = table
clear_all a fd (n ∷ ns) table = clear_all a fd ns (with_entry a (fd n) table)

-- What the loops do not change.
abbrev pub Same : Poller → Poller → Type 0
Same p p' =
    (p'.max_open_files ≡ p.max_open_files)
    × (p'.fd ≡ p.fd)
    × (p'.timeout ≡ p.timeout)
    × (p'.in_rbtree ≡ p.in_rbtree)
    × (p'.removed ≡ p.removed)
    × (p'.no_timeo_list ≡ p.no_timeo_list)
    × (p'.is_stopped ≡ p.is_stopped)
    × (p'.timer ≡ p.timer)
    × (p'.pipe ≡ p.pipe)

module _ (timeout : ℕ → Timespec) (now : Timespec) where
  pub NotAfter-overdue :
      (t : Timespec) (xs : List ℕ)
      → NoneBefore timeout t xs
      → NotAfter now t
      → (overdue timeout now xs ≡ []) × (in_time timeout now xs ≡ xs)
  NotAfter-overdue t [] h k = (refl, refl)
  NotAfter-overdue t (x ∷ xs) (h, hs) k =
      let late : earlier (timeout x) now ≡ false = NotAfter-trans now t (timeout x) k h in
      let (none_left, all_kept) = NotAfter-overdue t xs hs k in
      rw late (none_left, ap (λ (w : List ℕ). x ∷ w) all_kept)

  pub count-overdue :
      (m : ℕ) (xs : List ℕ)
      → count m (overdue timeout now xs) + count m (in_time timeout now xs) ≡ count m xs
  count-overdue m [] = refl
  count-overdue m (x ∷ xs) = elim (Bool-cases (earlier (timeout x) now)) [
    | inl e ↦ rw e (omega (arith, count-overdue m xs))
    | inr e ↦ rw e (omega (arith, count-overdue m xs))
  ]

  pub NoneBefore-in_time :
      (t : Timespec) (xs : List ℕ)
      → NoneBefore timeout t xs
      → NoneBefore timeout t (in_time timeout now xs)
  NoneBefore-in_time t [] h = tt
  NoneBefore-in_time t (x ∷ xs) (h, hs) = elim (Bool-cases (earlier (timeout x) now)) [
    | inl e ↦ rw e (NoneBefore-in_time t xs hs)
    | inr e ↦ rw e (h, NoneBefore-in_time t xs hs)
  ]

  pub IsSorted-in_time :
      (xs : List ℕ) → IsSorted timeout xs → IsSorted timeout (in_time timeout now xs)
  IsSorted-in_time [] h = tt
  IsSorted-in_time (x ∷ xs) (h, hs) = elim (Bool-cases (earlier (timeout x) now)) [
    | inl e ↦ rw e (IsSorted-in_time xs hs)
    | inr e ↦ rw e (NoneBefore-in_time (timeout x) xs h, IsSorted-in_time xs hs)
  ]
