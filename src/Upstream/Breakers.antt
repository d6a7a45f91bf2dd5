-- ===== src/Upstream/Breakers.antt =====
-- The failures of addresses and their breakers keep an upstream healthy.
use demo_submodule.Prelude.{
  count, count-append, count-erase, erase, ℕ, ◌+◌, ◌%◌, ◌^◌, ◌<◌, ◌≡◌, ◌≢◌, refl, ap, true, false,
  ◌&&◌, not, List, [], ◌∷◌, ◌++◌, arith, ltb, ◌==◌, update, Bool-cases, inl, inr,
}
use demo_submodule.Upstream.{
  Upstream, is_alive, set_fail_count, break_down, lose_one_server, gain_one_server, disable,
  disable_loop, notify_available, enable_loop, notify_unavailable,
}
use demo_submodule.Upstream.Healthy.{IsCounted, IsHealthy, Touches-IsHealthy, tally-erase}

-- A group counts an address of it that is alive.
pub nalive-pos :
    (a : ℕ) (s : Upstream)
    → IsCounted s
    → s.group a ≢ 0
    → is_alive s a ≡ true
    → 0 < s.nalive (s.group a)
nalive-pos a s v ne e =
    let g = s.group a in
    let p : 0 < g = omega (arith, ne) in
    elim (Bool-cases (s.is_master a)) [
      | inl m ↦
          let here : 0 < count a (s.masters g) = ground (arith, v.in_masters g a p) in
          ground (arith, v.alive g p, tally-erase (is_alive s) a (s.masters g) here)
      | inr m ↦
          let here : 0 < count a (s.slaves g) = ground (arith, v.in_slaves g a p) in
          ground (arith, v.alive g p, tally-erase (is_alive s) a (s.slaves g) here)
    ]

-- Another number of fails, which leaves the address alive or broken as it was.
kept-IsHealthy :
    (a n : ℕ) (s : Upstream)
    → IsHealthy s
    → (s.group a ≢ 0 → is_alive s a ≡ ltb n (s.max_fails a))
    → IsHealthy (set_fail_count a n s)
kept-IsHealthy a n s v h = Touches-IsHealthy a s (set_fail_count a n s) v (record {
  masters = refl;
  slaves = refl;
  group = refl;
  is_master = refl;
  max_fails = refl;
  server_map = refl;
  address = refl;
  fail_count = λ x ne. ground arith;
  listed = λ x ne. refl;
  broken = λ ne. ground (arith, v.counts.broken a ne, h ne);
  counted = λ ne. ground (arith, h ne);
  nalive = λ g p ne. refl;
  breakers = λ g x p. inl p;
})

appended-breakers :
    (h g a x : ℕ) (lists : ℕ → List ℕ)
    → ((x == a) && (g == h)) ≡ false
    → 0 < count x (update lists h (lists h ++ a ∷ []) g)
    → 0 < count x (lists g)
appended-breakers h g a x lists z p = elim (Bool-cases (g == h)) [
  | inl e ↦
      let same : count x (lists g) ≡ count x (lists h) =
        ap (λ i. count x (lists i)) (ground arith) in
      let here : update lists h (lists h ++ a ∷ []) g ≡ lists h ++ a ∷ [] = rw e refl in
      let counted = ap (count x) here in
      ground (arith, same, counted, count-append x (lists h) (a ∷ []))
  | inr e ↦
      let here : update lists h (lists h ++ a ∷ []) g ≡ lists g = rw e refl in
      let counted = ap (count x) here in omega (arith, counted, p)
]

pub erased-breakers :
    (h g a x : ℕ) (lists : ℕ → List ℕ)
    → 0 < count x (update lists h (erase a (lists h)) g)
    → 0 < count x (lists g)
erased-breakers h g a x lists p = elim (Bool-cases (g == h)) [
  | inl e ↦
      let same : count x (lists g) ≡ count x (lists h) =
        ap (λ i. count x (lists i)) (ground arith) in
      let here : update lists h (erase a (lists h)) g ≡ erase a (lists h) = rw e refl in
      let counted = ap (count x) here in ground (arith, same, counted, count-erase x a (lists h))
  | inr e ↦
      let here : update lists h (erase a (lists h)) g ≡ lists g = rw e refl in
      let counted = ap (count x) here in omega (arith, counted, p)
]

-- An address of a group breaks.
broken-IsHealthy :
    (now a n : ℕ) (s : Upstream)
    → IsHealthy s
    → s.group a ≢ 0
    → s.listed a ≡ false
    → ltb n (s.max_fails a) ≡ false
    → IsHealthy (break_down now (s.group a) a (set_fail_count a n s))
unfolding break_down lose_one_server
broken-IsHealthy now a n s v ne l h =
    let was : is_alive s a ≡ true = ground (arith, v.counts.broken a ne) in
    let some_alive = nalive-pos a s v.counts ne was in
    Touches-IsHealthy a s _ v (record {
      masters = refl;
      slaves = refl;
      group = refl;
      is_master = refl;
      max_fails = refl;
      server_map = refl;
      address = refl;
      fail_count = λ x away. ground arith;
      listed = λ x away. ground arith;
      broken = λ _. ground (arith, h);
      counted = λ _. ground (arith, h, was);
      nalive = λ g p away. ground arith;
      breakers = λ g x p. elim (Bool-cases ((x == a) && (g == s.group a))) [
        | inl z ↦ inr (ground arith, ground arith)
        | inr z ↦ inl (appended-breakers (s.group a) g a x s.breaker_list z p)
      ];
    })

disable-IsHealthy : (now a : ℕ) (s : Upstream) → IsHealthy s → IsHealthy (disable now a s)
unfolding disable
disable-IsHealthy now a s v = elim (Bool-cases (s.group a == 0)) [
  | inl z ↦ rw z (kept-IsHealthy a (s.max_fails a) s v (λ ne. absurd (ground arith)))
  | inr z ↦ elim (Bool-cases (s.listed a)) [
    | inl l ↦
        rw (z, l)
          (kept-IsHealthy a (s.max_fails a) s v (λ ne. ground (arith, v.counts.broken a ne)))
    | inr l ↦
        rw (z, l) (broken-IsHealthy now a (s.max_fails a) s v (ground (arith, z)) l (ground arith))
  ]
]

pub notify_unavailable-IsHealthy :
    (now a : ℕ) (s : Upstream)
    → IsHealthy s
    → s.fail_count a + 1 < 2 ^ 32
    → IsHealthy (notify_unavailable now a s)
unfolding notify_unavailable
notify_unavailable-IsHealthy now a s v small =
    let n = (s.fail_count a + 1) % 2 ^ 32 in
    let more : n ≡ s.fail_count a + 1 = omega arith in
    elim (Bool-cases (s.group a == 0)) [
      | inl z ↦ rw z (kept-IsHealthy a n s v (λ ne. absurd (ground arith)))
      | inr z ↦ elim (Bool-cases ((n == s.max_fails a) && not (s.listed a))) [
        | inl l ↦
            rw (z, l)
              (broken-IsHealthy now a n s v (ground (arith, z)) (ground (arith, l))
                (ground (arith, l)))
        | inr l ↦
            rw (z, l) (kept-IsHealthy a n s v (λ ne. ground (arith, v.counts.broken a ne, l, more)))
      ]
    ]

-- The breaker of an address of a group goes.
pub notify_available-IsHealthy :
    (a : ℕ) (s : Upstream) → IsHealthy s → IsHealthy (notify_available a s)
unfolding notify_available gain_one_server
notify_available-IsHealthy a s v = elim (Bool-cases (s.group a == 0)) [
  | inl z ↦ rw z (kept-IsHealthy a 0 s v (λ ne. absurd (ground arith)))
  | inr z ↦
      let ne : s.group a ≢ 0 = ground (arith, z) in
      let was = v.counts.broken a ne in
      elim (Bool-cases (s.listed a)) [
        | inl l ↦
            let dead : is_alive s a ≡ false = ground (arith, was, l) in
            simp (z, l, dead)
              (Touches-IsHealthy a s _ v (record {
                masters = refl;
                slaves = refl;
                group = refl;
                is_master = refl;
                max_fails = refl;
                server_map = refl;
                address = refl;
                fail_count = λ x away. ground arith;
                listed = λ x away. ground arith;
                broken = λ _. ground (arith, v.counts.some_fails a);
                counted = λ _. ground (arith, dead, v.counts.some_fails a);
                nalive = λ g p away. ground arith;
                breakers = λ g x p. inl (erased-breakers (s.group a) g a x s.breaker_list p);
              }))
        | inr l ↦
            let live : is_alive s a ≡ true = ground (arith, was, l) in
            rw (z, l) (kept-IsHealthy a 0 s v (λ _. ground (arith, live)))
      ]
]

pub disable_loop-IsHealthy :
    (now : ℕ) (xs : List ℕ) (s : Upstream) → IsHealthy s → IsHealthy (disable_loop now xs s)
unfolding disable_loop
disable_loop-IsHealthy now [] s v = v
disable_loop-IsHealthy now (a ∷ rest) s v =
    disable_loop-IsHealthy now rest (disable now a s) (disable-IsHealthy now a s v)

pub enable_loop-IsHealthy :
    (xs : List ℕ) (s : Upstream) → IsHealthy s → IsHealthy (enable_loop xs s)
unfolding enable_loop
enable_loop-IsHealthy [] s v = v
enable_loop-IsHealthy (a ∷ rest) s v =
    enable_loop-IsHealthy rest (notify_available a s) (notify_available-IsHealthy a s v)
