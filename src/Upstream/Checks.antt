-- ===== src/Upstream/Checks.antt =====
-- The checks of the breakers keep an upstream healthy.
use demo_submodule.Prelude.{
  count, ℕ, ◌<◌, ◌≡◌, ◌⊎◌, refl, ap, List, [], ◌∷◌, arith, leb, ◌==◌, Bool-cases, inl, inr,
}
use demo_submodule.Upstream.{
  Upstream, is_alive, gain_one_server, recover, check_loop, check_one_breaker,
}
use demo_submodule.Upstream.Healthy.{IsHealthy, Touches-IsHealthy}
use demo_submodule.Upstream.Breakers.{erased-breakers}

-- An address leaves the breakers of the group `g`, whether it is still in the group or not.
recover-IsHealthy :
    (g a : ℕ) (s : Upstream)
    → IsHealthy s
    → (s.group a ≡ 0) ⊎ (s.group a ≡ g)
    → IsHealthy (recover g a s)
unfolding recover gain_one_server
recover-IsHealthy g a s v near = elim (Bool-cases (is_alive s a)) [
  | inl live ↦ rw live (
      Touches-IsHealthy a s _ v (record {
        masters = refl;
        slaves = refl;
        group = refl;
        is_master = refl;
        max_fails = refl;
        server_map = refl;
        address = refl;
        fail_count = λ x away. refl;
        listed = λ x away. ground arith;
        broken = λ _. ground (arith, live);
        counted = λ _. refl;
        nalive = λ g p away. refl;
        breakers = λ h x p. inl (erased-breakers g h a x s.breaker_list p);
      }))
  | inr dead ↦ elim (Bool-cases (s.group a == g)) [
    | inl e ↦
        let here : s.group a ≡ g = ground (arith, e) in
        simp (dead, e)
          (Touches-IsHealthy a s _ v (record {
            masters = refl;
            slaves = refl;
            group = refl;
            is_master = refl;
            max_fails = refl;
            server_map = refl;
            address = refl;
            fail_count = λ x away. ground arith;
            listed = λ x away. ground arith;
            broken = λ _. ground (arith, v.counts.some_fails a);
            counted = λ _. ground (arith, dead, here, v.counts.some_fails a, ap s.nalive here);
            nalive = λ h p away. ground (arith, here);
            breakers = λ h x p. inl (erased-breakers g h a x s.breaker_list p);
          }))
    | inr e ↦
        let out : s.group a ≡ 0 = elim near [ inl o ↦ o | inr h ↦ absurd (ground (arith, h)) ] in
        simp (dead, e)
          (Touches-IsHealthy a s _ v (record {
            masters = refl;
            slaves = refl;
            group = refl;
            is_master = refl;
            max_fails = refl;
            server_map = refl;
            address = refl;
            fail_count = λ x away. ground arith;
            listed = λ x away. ground arith;
            broken = λ ne. absurd (ne out);
            counted = λ ne. absurd (ne out);
            nalive = λ h p away. refl;
            breakers = λ h x p. inl (erased-breakers g h a x s.breaker_list p);
          }))
  ]
]

pub recover-group : (g a : ℕ) (s : Upstream) → (recover g a s).group ≡ s.group
unfolding recover gain_one_server
recover-group g a s = elim (Bool-cases (is_alive s a)) [
  | inl e ↦ rw e refl
  | inr e ↦ elim (Bool-cases (s.group a == g)) [
    | inl f ↦ simp (e, f) refl
    | inr f ↦ simp (e, f) refl
  ]
]

-- The addresses whose breakers are looked at are in the group, or in none any more.
check_loop-IsHealthy :
    (g now : ℕ) (xs : List ℕ) (s : Upstream)
    → IsHealthy s
    → ((a : ℕ) → 0 < count a xs → (s.group a ≡ 0) ⊎ (s.group a ≡ g))
    → IsHealthy (check_loop g now xs s)
unfolding check_loop
check_loop-IsHealthy g now [] s v h = v
check_loop-IsHealthy g now (a ∷ rest) s v h = elim (Bool-cases (leb (s.broken_timeout a) now)) [
  | inl e ↦ rw e (
      check_loop-IsHealthy g now rest (recover g a s)
        (recover-IsHealthy g a s v (h a (ground arith)))
        (λ x p. rw (ap (λ (f : ℕ → ℕ). f x) (recover-group g a s)) (h x (ground arith))))
  | inr e ↦ rw e (check_loop-IsHealthy g now rest s v (λ x p. h x (ground arith)))
]

pub check_one_breaker-IsHealthy :
    (g now : ℕ) (s : Upstream) → IsHealthy s → IsHealthy (check_one_breaker g now s)
unfolding check_one_breaker
check_one_breaker-IsHealthy g now s v = elim (Bool-cases (s.nbreak g == 0)) [
  | inl e ↦ rw e v
  | inr e ↦
      rw e (check_loop-IsHealthy g now (s.breaker_list g) s v (λ a p. v.counts.breakers g a p))
]
