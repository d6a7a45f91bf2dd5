-- ===== src/Upstream/Leaving.antt =====
-- Addresses that go keep an upstream healthy.
use demo_submodule.Prelude.{
  count, ℕ, ◌<◌, ◌≤◌, ◌≡◌, ◌≢◌, ◌⊎◌, refl, ap, ◌∙◌, not, List, [], ◌∷◌, arith, ltb, ◌==◌,
  if◌then◌else◌, update, Bool-cases, inl, inr,
}
use demo_submodule.Upstream.{Upstream, is_alive, lose_one_server, del_address, del_loop, del}
use demo_submodule.Upstream.Healthy.{IsCounted, IsHealthy}
use demo_submodule.Upstream.Breakers.{nalive-pos}
use demo_submodule.Upstream.Members.{count_left, tally_left}

-- An address of a group is taken out of it.
del_address-IsCounted :
    (a : ℕ) (s : Upstream) → IsCounted s → s.group a ≢ 0 → IsCounted (del_address (s.group a) a s)
unfolding del_address lose_one_server
del_address-IsCounted a s v ne =
    let g = s.group a in
    let p : 0 < g = omega (arith, ne) in
    let gone : (h x : ℕ)
        → 0 < count x (s.breaker_list h)
        → (update s.group a 0 x ≡ 0) ⊎ (update s.group a 0 x ≡ h) =
      λ h x q. elim (Bool-cases (x == a)) [
        | inl z ↦ inl (rw z refl)
        | inr z ↦ rw z (v.breakers h x q)
      ] in
    let rest : (x : ℕ) → update s.group a 0 x ≢ 0 → s.listed x ≡ not (is_alive s x) =
      λ x out. v.broken x (λ e. out (ground arith)) in
    elim (Bool-cases (s.is_master a)) [
      | inl m ↦
          let here : 0 < count a (s.masters g) = ground (arith, v.in_masters g a p, m) in
          elim (Bool-cases (is_alive s a)) [
            | inl live ↦
                rw (m, live)
                  (record {
                    in_masters = λ h x q. ground (
                      arith,
                      count_left g a h s.masters x,
                      v.in_masters h x q,
                      m,
                      ap s.is_master,
                      ap s.group,
                    );
                    in_slaves =
                        λ h x q. ground (arith, v.in_slaves h x q, m, ap s.is_master, ap s.group);
                    alive = λ h q. ground (
                      arith,
                      tally_left g a h s.masters (is_alive s) here,
                      live,
                      v.alive h q,
                      nalive-pos a s v ne live,
                      ap s.nalive,
                    );
                    broken = rest;
                    breakers = gone;
                    some_fails = v.some_fails;
                  })
            | inr dead ↦
                rw (m, dead)
                  (record {
                    in_masters = λ h x q. ground (
                      arith,
                      count_left g a h s.masters x,
                      v.in_masters h x q,
                      m,
                      ap s.is_master,
                      ap s.group,
                    );
                    in_slaves =
                        λ h x q. ground (arith, v.in_slaves h x q, m, ap s.is_master, ap s.group);
                    alive = λ h q.
                        ground
                          (arith, tally_left g a h s.masters (is_alive s) here, dead, v.alive h q);
                    broken = rest;
                    breakers = gone;
                    some_fails = v.some_fails;
                  })
          ]
      | inr m ↦
          let here : 0 < count a (s.slaves g) = ground (arith, v.in_slaves g a p, m) in
          elim (Bool-cases (is_alive s a)) [
            | inl live ↦
                rw (m, live)
                  (record {
                    in_masters =
                        λ h x q. ground (arith, v.in_masters h x q, m, ap s.is_master, ap s.group);
                    in_slaves = λ h x q. ground (
                      arith,
                      count_left g a h s.slaves x,
                      v.in_slaves h x q,
                      m,
                      ap s.is_master,
                      ap s.group,
                    );
                    alive = λ h q. ground (
                      arith,
                      tally_left g a h s.slaves (is_alive s) here,
                      live,
                      v.alive h q,
                      nalive-pos a s v ne live,
                      ap s.nalive,
                    );
                    broken = rest;
                    breakers = gone;
                    some_fails = v.some_fails;
                  })
            | inr dead ↦
                rw (m, dead)
                  (record {
                    in_masters =
                        λ h x q. ground (arith, v.in_masters h x q, m, ap s.is_master, ap s.group);
                    in_slaves = λ h x q. ground (
                      arith,
                      count_left g a h s.slaves x,
                      v.in_slaves h x q,
                      m,
                      ap s.is_master,
                      ap s.group,
                    );
                    alive = λ h q.
                        ground
                          (arith, tally_left g a h s.slaves (is_alive s) here, dead, v.alive h q);
                    broken = rest;
                    breakers = gone;
                    some_fails = v.some_fails;
                  })
          ]
    ]

del_address-group : (g a x : ℕ) (s : Upstream) → (del_address g a s).group x ≡ update s.group a 0 x
unfolding del_address lose_one_server
del_address-group g a x s = elim (Bool-cases (is_alive s a)) [
  | inl e ↦ rw e refl
  | inr e ↦ rw e refl
]

del_address-server_map : (g a : ℕ) (s : Upstream) → (del_address g a s).server_map ≡ s.server_map
unfolding del_address lose_one_server
del_address-server_map g a s = elim (Bool-cases (is_alive s a)) [
  | inl e ↦ rw e refl
  | inr e ↦ rw e refl
]

del_address-address : (g a : ℕ) (s : Upstream) → (del_address g a s).address ≡ s.address
unfolding del_address lose_one_server
del_address-address g a s = elim (Bool-cases (is_alive s a)) [
  | inl e ↦ rw e refl
  | inr e ↦ rw e refl
]

-- What the first loop of `del` leaves: the addresses that it saw are in no group.
record Deletes (xs : List ℕ) (s s' : Upstream) : Type 0 where
  counts : IsCounted s'
  group : (x : ℕ) → s'.group x ≡ (if ltb 0 (count x xs) then 0 else s.group x)
  server_map : s'.server_map ≡ s.server_map
  address : s'.address ≡ s.address

del_loop-Deletes :
    (xs : List ℕ) (s : Upstream)
    → IsCounted s
    → ((x : ℕ) → 0 < count x xs → s.group x ≢ 0)
    → ((x : ℕ) → count x xs ≤ 1)
    → Deletes xs s (del_loop xs s)
unfolding del_loop
del_loop-Deletes [] s v h d = record {
  counts = v;
  group = λ x. refl;
  server_map = refl;
  address = refl;
}
del_loop-Deletes (a ∷ rest) s v h d =
    let s' = del_address (s.group a) a s in
    let grp = λ (x : ℕ). del_address-group (s.group a) a x s in
    let once : count a rest ≡ 0 = ground (arith, d a) in
    let r =
      del_loop-Deletes rest s' (del_address-IsCounted a s v (h a (ground arith)))
        (λ x p. ground (arith, grp x, h x, once, ap (λ (i : ℕ). count i rest)))
        (λ x. ground (arith, d x)) in
    record {
      counts = r.counts;
      group = λ x. ground (arith, r.group x, grp x);
      server_map = r.server_map ∙ del_address-server_map (s.group a) a s;
      address = r.address ∙ del_address-address (s.group a) a s;
    }

pub del-IsHealthy : (name : ℕ) (s : Upstream) → IsHealthy s → IsHealthy (del name s).1
unfolding del
del-IsHealthy name s v =
    let xs = s.server_map name in
    let r =
      del_loop-Deletes xs s v.counts (λ x p. ground (arith, v.mapped name x))
        (λ x. ground (arith, v.mapped name x)) in
    record {
      counts = record {
        in_masters = r.counts.in_masters;
        in_slaves = r.counts.in_slaves;
        alive = r.counts.alive;
        broken = r.counts.broken;
        breakers = r.counts.breakers;
        some_fails = r.counts.some_fails;
      };
      mapped = λ other x. elim (Bool-cases (other == name)) [
        | inl z ↦
            let adr = ap (λ (f : ℕ → ℕ). f x) r.address in
            rw z (ground (arith, z, adr, r.group x, v.mapped name x))
        | inr z ↦
            let adr = ap (λ (f : ℕ → ℕ). f x) r.address in
            let mp = ap (λ (f : ℕ → List ℕ). count x (f other)) r.server_map in
            rw z (ground (arith, z, adr, mp, r.group x, v.mapped name x, v.mapped other x))
      ];
    }
