-- ===== src/Upstream/Members.antt =====
-- Addresses that come keep an upstream healthy.
use demo_submodule.Prelude.{
  count, count-append, count-erase, erase, ℕ, ◌+◌, ◌-◌, ◌<◌, ◌≡◌, ◌⊎◌, ap, Bool, true, false, ◌&&◌,
  List, [], ◌∷◌, ◌++◌, arith, ◌==◌, if◌then◌else◌, update, Bool-cases, inl, inr,
}
use demo_submodule.Upstream.{Upstream, is_alive, gain_one_server, add}
use demo_submodule.Upstream.Healthy.{tally, IsCounted, IsHealthy, tally-append, tally-erase}

-- An address that was just made.
pub record IsFresh (s : Upstream) (a : ℕ) : Type 0 where
  pub no_group : s.group a ≡ 0
  pub no_fails : s.fail_count a ≡ 0
  pub no_breaker : s.listed a ≡ false
  pub nowhere : (g : ℕ) → count a (s.breaker_list g) ≡ 0
  pub params : 0 < s.params_group a

module _ (g a h : ℕ) (lists : ℕ → List ℕ) where
  count_joined :
      (x : ℕ)
      → count x (update lists g (lists g ++ a ∷ []) h)
        ≡ count x (lists h) + (if (h == g) && (a == x) then 1 else 0)
  count_joined x = elim (Bool-cases (h == g)) [
    | inl e ↦
        let same : count x (lists h) ≡ count x (lists g) =
          ap (λ i. count x (lists i)) (ground arith) in
        rw e (ground (arith, same, count-append x (lists g) (a ∷ [])))
    | inr e ↦ rw e (omega arith)
  ]

  tally_joined :
      (f : ℕ → Bool)
      → tally f (update lists g (lists g ++ a ∷ []) h)
        ≡ tally f (lists h) + (if (h == g) && f a then 1 else 0)
  tally_joined f = elim (Bool-cases (h == g)) [
    | inl e ↦
        let same : tally f (lists h) ≡ tally f (lists g) =
          ap (λ i. tally f (lists i)) (ground arith) in
        rw e (ground (arith, same, tally-append f (lists g) (a ∷ [])))
    | inr e ↦ rw e (omega arith)
  ]

  pub count_left :
      (x : ℕ)
      → count x (update lists g (erase a (lists g)) h)
        ≡ count x (lists h) - (if (h == g) && (x == a) then 1 else 0)
  count_left x = elim (Bool-cases (h == g)) [
    | inl e ↦
        let same : count x (lists h) ≡ count x (lists g) =
          ap (λ i. count x (lists i)) (ground arith) in
        rw e (ground (arith, same, count-erase x a (lists g)))
    | inr e ↦ rw e (omega arith)
  ]

  pub tally_left :
      (f : ℕ → Bool)
      → 0 < count a (lists g)
      → tally f (update lists g (erase a (lists g)) h) + (if (h == g) && f a then 1 else 0)
        ≡ tally f (lists h)
  tally_left f p = elim (Bool-cases (h == g)) [
    | inl e ↦
        let same : tally f (lists h) ≡ tally f (lists g) =
          ap (λ i. tally f (lists i)) (ground arith) in
        rw e (ground (arith, same, tally-erase f a (lists g) p))
    | inr e ↦ rw e (omega arith)
  ]

add-IsCounted : (a : ℕ) (s : Upstream) → IsCounted s → IsFresh s a → IsCounted (add a s)
unfolding add gain_one_server
add-IsCounted a s v new =
    let g = s.params_group a in
    let live : is_alive s a ≡ true = ground (arith, new.no_fails, v.some_fails a) in
    let fresh_breakers : (h x : ℕ)
        → 0 < count x (s.breaker_list h)
        → (update s.group a g x ≡ 0) ⊎ (update s.group a g x ≡ h) =
      λ h x p. elim (Bool-cases (x == a)) [
        | inl z ↦
            absurd (ground (arith, p, new.nowhere h, ap (λ (i : ℕ). count i (s.breaker_list h))))
        | inr z ↦ rw z (v.breakers h x p)
      ] in
    elim (Bool-cases (s.is_master a)) [
      | inl m ↦ rw m (record {
        in_masters = λ h x p. ground (
          arith,
          count_joined g a h s.masters x,
          v.in_masters h x p,
          new.no_group,
          m,
          ap s.is_master,
          ap s.group,
        );
        in_slaves =
            λ h x p. ground (arith, v.in_slaves h x p, new.no_group, m, ap s.is_master, ap s.group);
        alive = λ h p.
            ground
              (arith, tally_joined g a h s.masters (is_alive s), live, v.alive h p, ap s.nalive);
        broken = λ x ne.
            ground (
              arith,
              new.no_breaker,
              live,
              v.broken x,
              ap s.listed,
              ap s.max_fails,
              ap s.fail_count,
            );
        breakers = λ h x p. fresh_breakers h x p;
        some_fails = v.some_fails;
      })
      | inr m ↦ rw m (record {
        in_masters = λ h x p.
            ground (arith, v.in_masters h x p, new.no_group, m, ap s.is_master, ap s.group);
        in_slaves = λ h x p. ground (
          arith,
          count_joined g a h s.slaves x,
          v.in_slaves h x p,
          new.no_group,
          m,
          ap s.is_master,
          ap s.group,
        );
        alive = λ h p.
            ground
              (arith, tally_joined g a h s.slaves (is_alive s), live, v.alive h p, ap s.nalive);
        broken = λ x ne.
            ground (
              arith,
              new.no_breaker,
              live,
              v.broken x,
              ap s.listed,
              ap s.max_fails,
              ap s.fail_count,
            );
        breakers = λ h x p. fresh_breakers h x p;
        some_fails = v.some_fails;
      })
    ]

pub add-IsHealthy : (a : ℕ) (s : Upstream) → IsHealthy s → IsFresh s a → IsHealthy (add a s)
unfolding add gain_one_server
add-IsHealthy a s v new = record {
  counts = add-IsCounted a s v.counts new;
  mapped = λ name x. ground (
    arith,
    count_joined (s.address a) a name s.server_map x,
    v.mapped name x,
    new.no_group,
    new.params,
    ap s.address,
    ap s.group,
  );
}
