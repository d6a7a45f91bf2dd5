-- ===== src/Parallel/Countdown/Round.antt =====
-- A task at its end, and the count of its parent.
use mathlib.Core.Path.{subst}
use demo_submodule.Prelude.{
  ℕ, zero, suc, ◌+◌, ◌<◌, ◌≡◌, refl, ap, true, false, Option, none, some, ◌∷◌, ◌==◌, if◌then◌else◌,
  update, length, count, count-erase, erase, arith, Bool-cases, inl, inr,
}
use demo_submodule.Parallel.{round, sub_and_fetch}
use demo_submodule.Parallel.Running.{Running, Idle, after_round}
use demo_submodule.Parallel.Countdown.{is_kid, kids, kids-erase, kids-update, IsCounting}

-- A task without a parent is at its end.
root-IsCounting :
    (r : Running) (t : ℕ)
    → 0 < count t r.doing
    → r.tasks.parent t ≡ none
    → IsCounting r
    → IsCounting (after_round none t r)
unfolding round
root-IsCounting r t h e v =
    let left = λ (p : ℕ). kids-erase r.tasks.parent p t r.doing h in
    let no_kid : (p : ℕ) → is_kid (r.tasks.parent t) p ≡ false = λ p. rw e refl in
    simp e (record {
      once = λ u. ground (arith, v.once u, count-erase u t r.doing);
      counted = λ p o. ground (arith, v.counted p o, left p, no_kid p);
      closed = λ p o. ground (arith, v.closed p o, left p, no_kid p);
      runs = v.runs;
    })

-- A task with a parent is at its end: the count of that goes down.
module _ (r : Running) (t q : ℕ) (h : 0 < count t r.doing) (e : r.tasks.parent t ≡ some q)
    (v : IsCounting r) where
  pub left :
      (p : ℕ)
      → kids r.tasks.parent p (erase t r.doing) + (if q == p then 1 else 0)
        ≡ kids r.tasks.parent p r.doing
  left p =
      let kid : is_kid (r.tasks.parent t) p ≡ (q == p) = ap (λ (o : Option ℕ). is_kid o p) e in
      ground (arith, kids-erase r.tasks.parent p t r.doing h, kid)

  pub parent_opened : r.opened q ≡ true
  parent_opened = elim (Bool-cases (r.opened q)) [
    | inl z ↦ z
    | inr z ↦ absurd (ground (arith, v.closed q z, left q))
  ]

  pub fetched : sub_and_fetch (r.tasks.nleft q) + 1 ≡ r.tasks.nleft q
  fetched = fetch (r.tasks.nleft q) (v.runs q parent_opened).0
    where
      fetch : (n : ℕ) → 0 < n → sub_and_fetch n + 1 ≡ n
      fetch zero l = absurd (omega (arith, l))
      fetch (suc n) l = omega arith

  go_on-IsCounting :
      (sub_and_fetch (r.tasks.nleft q) == 0) ≡ false → IsCounting (after_round none t r)
  unfolding round
  go_on-IsCounting k =
      simp (e, k)
        (record {
          once = λ u. ground (arith, v.once u, count-erase u t r.doing);
          counted = λ p o. elim (Bool-cases (p == q)) [
            | inl z ↦
                let same : p ≡ q = ground (arith, z) in
                ground (arith, fetched, v.counted p o, ap r.tasks.nleft same, left p, z)
            | inr z ↦ ground (arith, v.counted p o, left p, z)
          ];
          closed = λ p o. ground (arith, v.closed p o, left p);
          runs = λ p o. (ground (arith, (v.runs p o).0, k), (v.runs p o).1);
        })

  -- The last one: the parent comes to its end.
  go_up-IsCounting :
      (sub_and_fetch (r.tasks.nleft q) == 0) ≡ true → IsCounting (after_round none t r)
  unfolding round
  go_up-IsCounting k =
      let here : count q r.active ≡ 1 = (v.runs q parent_opened).1 in
      let moved = λ (p : ℕ). kids-erase r.tasks.parent p q r.active (omega (arith, here)) in
      let none_left = v.counted q parent_opened in
      simp (e, k)
        (record {
          once = λ u.
              ground (arith, v.once u, count-erase u t r.doing, count-erase u q r.active, here);
          counted = λ p o. elim (Bool-cases (p == q)) [
            | inl z ↦ absurd (ground (arith, o, z))
            | inr z ↦ ground (arith, v.counted p (ground (arith, o, z)), left p, moved p, z)
          ];
          closed = λ p o. elim (Bool-cases (p == q)) [
            | inl z ↦
                let same : q ≡ p = ground (arith, z) in
                subst
                  (λ w.
                    kids r.tasks.parent w (erase q r.active)
                      + kids r.tasks.parent w (q ∷ erase t r.doing)
                      + length (r.pending w)
                    ≡ 0)
                  same (ground (arith, none_left, left q, moved q, fetched, k))
            | inr z ↦ ground (arith, v.closed p (ground (arith, o, z)), left p, moved p, z)
          ];
          runs = λ p o. elim (Bool-cases (p == q)) [
            | inl z ↦ absurd (ground (arith, o, z))
            | inr z ↦
                let (some_left, runs) = v.runs p (ground (arith, o, z)) in
                (ground (arith, some_left, z), ground (arith, runs, z, count-erase p q r.active))
          ];
        })

pub leave-IsCounting :
    (r : Running) (t : ℕ) (o : Option ℕ)
    → 0 < count t r.doing
    → r.tasks.parent t ≡ o
    → IsCounting r
    → IsCounting (after_round none t r)
leave-IsCounting r t none h e v = root-IsCounting r t h e v
leave-IsCounting r t (some q) h e v = elim (Bool-cases (sub_and_fetch (r.tasks.nleft q) == 0)) [
  | inl k ↦ go_up-IsCounting r t q h e v k
  | inr k ↦ go_on-IsCounting r t q h e v k
]

-- Another task comes after the one at its end, in its place.
pub next-IsCounting :
    (r : Running) (t c : ℕ)
    → 0 < count t r.doing
    → Idle c r
    → IsCounting r
    → IsCounting (after_round (some c) t r)
unfolding round
next-IsCounting r t c h idle v =
    let left = λ (p : ℕ). kids-erase r.tasks.parent p t r.doing h in
    let parent = update r.tasks.parent c (r.tasks.parent t) in
    let here : (c == c) ≡ true = ground arith in
    let kid : (p : ℕ) → is_kid (parent c) p ≡ is_kid (r.tasks.parent t) p = λ p. rw here refl in
    let same_active =
      λ (p : ℕ). kids-update r.tasks.parent p c (r.tasks.parent t) r.active (omega (arith, idle)) in
    let same_doing = λ (p : ℕ).
      kids-update r.tasks.parent p c (r.tasks.parent t) (erase t r.doing)
        (ground (arith, idle, count-erase c t r.doing)) in
    record {
      once = λ u. ground (arith, v.once u, count-erase u t r.doing, idle);
      counted = λ p o. ground (arith, v.counted p o, left p, kid p, same_active p, same_doing p);
      closed = λ p o. ground (arith, v.closed p o, left p, kid p, same_active p, same_doing p);
      runs = λ p o. ((v.runs p o).0, ground (arith, (v.runs p o).1, idle));
    }
