-- ===== src/Upstream/Recovery.antt =====
-- The addresses whose time has come are alive again.
use mathlib.Core.Path.{subst}
use demo_submodule.Prelude.{
  count, ℕ, ◌<◌, ◌≤◌, ◌≡◌, refl, ap, true, false, List, [], ◌∷◌, arith, leb, ◌==◌, Bool-cases, inl,
  inr,
}
use demo_submodule.Upstream.{
  Upstream, is_alive, gain_one_server, recover, check_loop, check_one_breaker,
}
use demo_submodule.Upstream.Healthy.{IsHealthy}

-- What `recover` does to an address, whichever it is for.
record Recovers (a : ℕ) (s s' : Upstream) : Type 0 where
  alive : is_alive s' a ≡ true
  others : (x : ℕ) → is_alive s x ≡ true → is_alive s' x ≡ true
  timeout : s'.broken_timeout ≡ s.broken_timeout
  max_fails : s'.max_fails ≡ s.max_fails

recover-Recovers :
    (g a : ℕ) (s : Upstream) → ((x : ℕ) → 0 < s.max_fails x) → Recovers a s (recover g a s)
unfolding recover gain_one_server
recover-Recovers g a s m = elim (Bool-cases (is_alive s a)) [
  | inl e ↦ rw e (record { alive = e; others = λ x l. l; timeout = refl; max_fails = refl })
  | inr e ↦ elim (Bool-cases (s.group a == g)) [
    | inl f ↦
        simp (e, f)
          (record {
            alive = ground (arith, m a);
            others = λ x l. ground (arith, m a, l, ap s.max_fails);
            timeout = refl;
            max_fails = refl;
          })
    | inr f ↦
        simp (e, f)
          (record {
            alive = ground (arith, m a);
            others = λ x l. ground (arith, m a, l, ap s.max_fails);
            timeout = refl;
            max_fails = refl;
          })
  ]
]

check_loop-alive :
    (g now : ℕ) (xs : List ℕ) (s : Upstream)
    → ((x : ℕ) → 0 < s.max_fails x)
    → (x : ℕ) → is_alive s x ≡ true
    → is_alive (check_loop g now xs s) x ≡ true
unfolding check_loop
check_loop-alive g now [] s m x l = l
check_loop-alive g now (a ∷ rest) s m x l = elim (Bool-cases (leb (s.broken_timeout a) now)) [
  | inl e ↦
      let r = recover-Recovers g a s m in
      rw (check_loop, e)
        (check_loop-alive g now rest (recover g a s)
          (λ y. rw (ap (λ (f : ℕ → ℕ). f y) r.max_fails) (m y)) x (r.others x l))
  | inr e ↦ rw (check_loop, e) (check_loop-alive g now rest s m x l)
]

check_loop-recovered :
    (g now : ℕ) (xs : List ℕ) (s : Upstream)
    → ((x : ℕ) → 0 < s.max_fails x)
    → (x : ℕ) → 0 < count x xs
    → s.broken_timeout x ≤ now
    → is_alive (check_loop g now xs s) x ≡ true
unfolding check_loop
check_loop-recovered g now [] s m x p t = absurd (omega arith)
check_loop-recovered g now (a ∷ rest) s m x p t =
    let r = recover-Recovers g a s m in
    let m' : (y : ℕ) → 0 < (recover g a s).max_fails y =
      λ y. rw (ap (λ (f : ℕ → ℕ). f y) r.max_fails) (m y) in
    elim (Bool-cases (leb (s.broken_timeout a) now)) [
      | inl e ↦ elim (Bool-cases (a == x)) [
        | inl z ↦
            let here : a ≡ x = ground (arith, z) in
            rw (check_loop, e)
              (check_loop-alive g now rest (recover g a s) m' x
                (subst (λ y. is_alive (recover g a s) y ≡ true) here r.alive))
        | inr z ↦
            rw (check_loop, e)
              (check_loop-recovered g now rest (recover g a s) m' x (ground (arith, p, z))
                (rw (ap (λ (f : ℕ → ℕ). f x) r.timeout) t))
      ]
      | inr e ↦
          rw (check_loop, e)
            (check_loop-recovered g now rest s m x (ground (arith, p, e, t, ap s.broken_timeout)) t)
    ]

-- When the group counts a breaker, check_one_breaker makes every address alive again whose breaker
-- is in the list of the group and whose time has come, and keeps those alive that are.
pub check_one_breaker-recovers :
    (g now : ℕ) (s : Upstream)
    → IsHealthy s
    → 0 < s.nbreak g
    → ((x : ℕ)
        → 0 < count x (s.breaker_list g)
        → s.broken_timeout x ≤ now
        → is_alive (check_one_breaker g now s) x ≡ true)
      × ((x : ℕ) → is_alive s x ≡ true → is_alive (check_one_breaker g now s) x ≡ true)
unfolding check_one_breaker
check_one_breaker-recovers g now s v n =
    let z : (s.nbreak g == 0) ≡ false = ground arith in
    rw z (
      check_loop-recovered g now (s.breaker_list g) s v.counts.some_fails,
      check_loop-alive g now (s.breaker_list g) s v.counts.some_fails,
    )
