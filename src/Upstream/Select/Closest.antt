-- ===== src/Upstream/Select/Closest.antt =====
-- The master that consistent_hash_select starts from is the closest one.
use mathlib.Core.Path.{subst}
use demo_submodule.Prelude.{
  count, ℕ, ◌-◌, ◌^◌, ◌<◌, ◌≤◌, ◌≡◌, ◌⊎◌, refl, sym, ap, ◌∙◌, true, false, Option, none, some, List,
  [], ◌∷◌, arith, ltb, ◌==◌, Bool-cases, inl, inr,
}
use demo_submodule.Upstream.{Upstream}
use demo_submodule.Upstream.Select.{
  Best, is_alive_or_group_alive, distance, point_loop, master_loop, closest_master,
}

-- How `now` comes from `before` by points of the address `a`.
record Nears (hash a : ℕ) (points : List ℕ) (before now : Best) : Type 0 where
  no_more : now.0 ≤ before.0
  all : (p : ℕ) → 0 < count p points → now.0 ≤ distance hash p
  from :
      (now ≡ before)
      ⊎ ((now.1 ≡ some a) × (p : ℕ) × (0 < count p points) × (distance hash p ≡ now.0))

point_loop-Nears :
    (hash a : ℕ) (points : List ℕ) (best : Best)
    → Nears hash a points best (point_loop hash a points best)
unfolding point_loop
point_loop-Nears hash a [] best = record {
  no_more = omega arith;
  all = λ p q. absurd (omega arith);
  from = inl refl;
}
point_loop-Nears hash a (x ∷ xs) best = elim (Bool-cases (ltb (distance hash x) best.0)) [
  | inl e ↦
      let r = point_loop-Nears hash a xs (distance hash x, some a) in
      rw e (record {
        no_more = ground (arith, r.no_more, e);
        all = λ p q. elim (Bool-cases (x == p)) [
          | inl z ↦ ground (arith, r.no_more, z, ap (distance hash))
          | inr z ↦ r.all p (ground (arith, q, z))
        ];
        from = elim r.from [
          | inl same ↦
              inr (ap (λ (b : Best). b.1) same, x, ground arith, sym (ap (λ (b : Best). b.0) same))
          | inr (u, p, q, d) ↦ inr (u, p, omega (arith, q), d)
        ];
      })
  | inr e ↦
      let r = point_loop-Nears hash a xs best in
      rw e (record {
        no_more = r.no_more;
        all = λ p q. elim (Bool-cases (x == p)) [
          | inl z ↦ ground (arith, r.no_more, z, e, ap (distance hash))
          | inr z ↦ r.all p (ground (arith, q, z))
        ];
        from = elim r.from [
          | inl same ↦ inl same
          | inr (u, p, q, d) ↦ inr (u, p, omega (arith, q), d)
        ];
      })
]

distance_small : (hash p : ℕ) → hash < 2 ^ 32 → p < 2 ^ 32 → distance hash p < 2 ^ 32 - 1
distance_small hash p h k = ground arith

module _ (consistent_hash : ℕ → List ℕ) (hash : ℕ) (s : Upstream) where
  -- How `now` comes from `before` by the masters `ms`.
  record Sweeps (ms : List ℕ) (before now : Best) : Type 0 where
    no_more : now.0 ≤ before.0
    all :
        (b p : ℕ)
        → 0 < count b ms
        → is_alive_or_group_alive s b ≡ true
        → 0 < count p (consistent_hash b)
        → now.0 ≤ distance hash p
    from :
        (now ≡ before)
        ⊎ ((a p : ℕ) × (now.1 ≡ some a)
            × (0 < count a ms)
            × (is_alive_or_group_alive s a ≡ true)
            × (0 < count p (consistent_hash a))
            × (distance hash p ≡ now.0))

  master_loop-Sweeps :
      (ms : List ℕ) (best : Best) → Sweeps ms best (master_loop consistent_hash hash s ms best)
  unfolding master_loop
  master_loop-Sweeps [] best = record {
    no_more = omega arith;
    all = λ b p q. absurd (omega arith);
    from = inl refl;
  }
  master_loop-Sweeps (a ∷ rest) best = elim (Bool-cases (is_alive_or_group_alive s a)) [
    | inl e ↦
        let n = point_loop-Nears hash a (consistent_hash a) best in
        let best' = point_loop hash a (consistent_hash a) best in
        let r = master_loop-Sweeps rest best' in
        rw e (record {
          no_more = omega (arith, r.no_more, n.no_more);
          all = λ b p q c k. elim (Bool-cases (a == b)) [
            | inl z ↦
                let here : b ≡ a = ground (arith, z) in
                let low = n.all p (subst (λ i. 0 < count p (consistent_hash i)) here k) in
                omega (arith, r.no_more, low)
            | inr z ↦ r.all b p (ground (arith, q, z)) c k
          ];
          from = elim r.from [
            | inl same ↦ elim n.from [
              | inl kept ↦ inl (same ∙ kept)
              | inr (u, p, k, d) ↦ inr (
                a,
                p,
                ap (λ (b : Best). b.1) same ∙ u,
                ground arith,
                e,
                k,
                d ∙ sym (ap (λ (b : Best). b.0) same),
              )
            ]
            | inr (b, p, u, q, c, k, d) ↦ inr (b, p, u, omega (arith, q), c, k, d)
          ];
        })
    | inr e ↦
        let r = master_loop-Sweeps rest best in
        rw e (record {
          no_more = r.no_more;
          all = λ b p q c k. elim (Bool-cases (a == b)) [
            | inl z ↦ absurd (ground (arith, z, e, c, ap (is_alive_or_group_alive s)))
            | inr z ↦ r.all b p (ground (arith, q, z)) c k
          ];
          from = elim r.from [
            | inl same ↦ inl same
            | inr (b, p, u, q, c, k, d) ↦ inr (b, p, u, omega (arith, q), c, k, d)
          ];
        })
  ]

  -- What closest_master may choose.
  pub IsClosest : Option ℕ → Type 0
  IsClosest none = (b : ℕ) → 0 < count b s.all_masters → is_alive_or_group_alive s b ≡ false
  IsClosest (some a) =
      (0 < count a s.all_masters)
      × (is_alive_or_group_alive s a ≡ true)
      × (p : ℕ) × (0 < count p (consistent_hash a))
      × ((b q : ℕ)
          → 0 < count b s.all_masters
          → is_alive_or_group_alive s b ≡ true
          → 0 < count q (consistent_hash b)
          → distance hash p ≤ distance hash q)

  chosen :
      (best : Best)
      → Sweeps s.all_masters (2 ^ 32 - 1, none) best
      → hash < 2 ^ 32
      → ((a p : ℕ) → 0 < count p (consistent_hash a) → p < 2 ^ 32)
      → ((a : ℕ) → (p : ℕ) × (0 < count p (consistent_hash a)))
      → IsClosest best.1
  unfolding IsClosest
  chosen (min, none) w small points some_point = λ b q.
      elim (Bool-cases (is_alive_or_group_alive s b)) [
        | inl e ↦
            let (p, k) = some_point b in
            let far : min ≡ 2 ^ 32 - 1 = elim w.from [
              | inl same ↦ ap (λ (b : Best). b.0) same
              | inr (a, p, u, q, c, k, d) ↦ absurd (ground (arith, u))
            ] in
            absurd (omega (arith, far, w.all b p q e k, distance_small hash p small (points b p k)))
        | inr e ↦ e
      ]
  chosen (min, some a) w small points some_point = elim w.from [
    | inl same ↦ absurd (ground (arith, ap (λ (b : Best). b.1) same))
    | inr (b, p, u, q, c, k, d) ↦
        let same : b ≡ a = ground (arith, u) in
        subst (λ i. IsClosest (some i)) same
          (q, c, p, k, λ x y m l n. omega (arith, d, w.all x y m l n))
  ]

  -- With hashes below 2^32, of which each address has one, the master that consistent_hash_select
  -- starts from is alive or has a group with an address that is alive, and no hash of any other
  -- such master is closer to the given one than the closest of its own; there is none only if no
  -- master is such.
  pub closest_master-IsClosest :
      hash < 2 ^ 32
      → ((a p : ℕ) → 0 < count p (consistent_hash a) → p < 2 ^ 32)
      → ((a : ℕ) → (p : ℕ) × (0 < count p (consistent_hash a)))
      → IsClosest (closest_master consistent_hash hash s).1
  unfolding closest_master
  closest_master-IsClosest =
      chosen (master_loop consistent_hash hash s s.all_masters (2 ^ 32 - 1, none))
        (master_loop-Sweeps s.all_masters (2 ^ 32 - 1, none))
