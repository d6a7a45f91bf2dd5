-- ===== src/Upstream/Get/Answers.antt =====
-- The answer of Upstream::get.
use demo_submodule.Prelude.{
  ℕ, ◌+◌, ◌-◌, ◌%◌, ◌^◌, ◌<◌, ◌≡◌, ◌≢◌, refl, sym, ap, ◌∙◌, Bool, true, false, Option, none, some,
  List, [], ◌∷◌, ltb, leb, ◌==◌, if◌then◌else◌, update, count, arith, Bool-cases, inl, inr,
}
use demo_submodule.Upstream.{
  Upstream, is_alive, is_grouped, first_alive, prefer, get_one, recover, check_loop,
  check_one_breaker, gain_one_server,
}
use demo_submodule.Upstream.Healthy.{IsHealthy}
use demo_submodule.Upstream.Checks.{recover-group, check_one_breaker-IsHealthy}
use demo_submodule.Upstream.Choice.{IsShuffle}
use demo_submodule.Upstream.Select.{
  is_alive_or_group_alive, closest_master, master_loop, point_loop, closer, distance, Best,
}
use demo_submodule.Upstream.Get.{
  check_all_breaker, weighted_loop, divisor, check_get_strong, weighted_random_try_another,
  or_another, Choice, hash_select, another, from_master, get_from, first_choice, get,
}
use demo_submodule.Upstream.Get.Alive.{
  IsAnswer, HasMasters, Good, get_weak-IsAnswer, check_get_strong-IsAnswer, or_slave-IsAnswer,
}

-- The checks of the breakers move no address.
recover-all_masters : (g a : ℕ) (s : Upstream) → (recover g a s).all_masters ≡ s.all_masters
unfolding recover gain_one_server
recover-all_masters g a s = elim (Bool-cases (is_alive s a)) [
  | inl e ↦ rw e refl
  | inr e ↦ elim (Bool-cases (s.group a == g)) [
    | inl f ↦ simp (e, f) refl
    | inr f ↦ simp (e, f) refl
  ]
]

HasMasters-same :
    (s s' : Upstream)
    → s'.group ≡ s.group
    → s'.all_masters ≡ s.all_masters
    → HasMasters s
    → HasMasters s'
HasMasters-same s s' e f h a p =
    let same : s'.group a ≡ s.group a = ap (λ (w : ℕ → ℕ). w a) e in
    let member : 0 < count a s.all_masters = omega (arith, p, ap (λ (w : List ℕ). count a w) f) in
    λ z. h a member (sym same ∙ z)

check_loop-HasMasters :
    (g now : ℕ) (xs : List ℕ) (s : Upstream) → HasMasters s → HasMasters (check_loop g now xs s)
unfolding check_loop
check_loop-HasMasters g now [] s h = h
check_loop-HasMasters g now (a ∷ rest) s h =
    check_loop-HasMasters g now rest (if leb (s.broken_timeout a) now then recover g a s else s)
      (elim (Bool-cases (leb (s.broken_timeout a) now)) [
        | inl e ↦
            simp e (
              HasMasters-same s (recover g a s) (recover-group g a s) (recover-all_masters g a s) h)
        | inr e ↦ simp e h
      ])

check_all_breaker-keeps :
    (groups : List ℕ) (now : ℕ) (s : Upstream)
    → IsHealthy s
    → HasMasters s
    → IsHealthy (check_all_breaker groups now s) × HasMasters (check_all_breaker groups now s)
unfolding check_all_breaker check_one_breaker
check_all_breaker-keeps [] now s v h = (v, h)
check_all_breaker-keeps (g ∷ rest) now s v h =
    let one : HasMasters (check_one_breaker g now s) = elim (Bool-cases (s.nbreak g == 0)) [
      | inl e ↦ rw e h
      | inr e ↦ rw e (check_loop-HasMasters g now (s.breaker_list g) s h)
    ] in
    check_all_breaker-keeps rest now (check_one_breaker g now s)
      (check_one_breaker-IsHealthy g now s v) one

-- What the loops over the masters find.
weighted_loop-Good :
    (s : Upstream) (x : ℕ) (xs : List ℕ) (ua : Option ℕ) (sum : ℕ)
    → ((a : ℕ) → 0 < count a xs → s.group a ≢ 0)
    → Good s ua
    → Good s (weighted_loop s x xs ua sum)
unfolding weighted_loop
weighted_loop-Good s x [] ua sum h good = good
weighted_loop-Good s x (a ∷ rest) ua sum h good =
    let later : (b : ℕ) → 0 < count b rest → s.group b ≢ 0 = λ b p. h b (ground (arith, p)) in
    elim (Bool-cases (is_alive_or_group_alive s a)) [
      | inl e ↦
          let here : Good s (some a) = (e, h a (ground arith)) in
          elim (Bool-cases (ltb x (sum + s.weight a))) [
            | inl k ↦ rw (e, k) here
            | inr k ↦ rw (e, k) (weighted_loop-Good s x rest (some a) (sum + s.weight a) later here)
          ]
      | inr e ↦ rw e (weighted_loop-Good s x rest ua sum later good)
    ]

point_loop-Good :
    (s : Upstream) (hash a : ℕ) (points : List ℕ) (best : Best)
    → Good s (some a)
    → Good s best.1
    → Good s (point_loop hash a points best).1
unfolding point_loop
point_loop-Good s hash a [] best here good = good
point_loop-Good s hash a (p ∷ points) best here good =
    point_loop-Good s hash a points (closer hash a p best) here
      (elim (Bool-cases (ltb (distance hash p) best.0)) [ inl e ↦ rw e here | inr e ↦ rw e good ])

module _ (consistent_hash : ℕ → List ℕ) where
  master_loop-Good :
      (hash : ℕ) (s : Upstream) (xs : List ℕ) (best : Best)
      → ((a : ℕ) → 0 < count a xs → s.group a ≢ 0)
      → Good s best.1
      → Good s (master_loop consistent_hash hash s xs best).1
  unfolding master_loop
  master_loop-Good hash s [] best h good = good
  master_loop-Good hash s (a ∷ rest) best h good =
      let later : (b : ℕ) → 0 < count b rest → s.group b ≢ 0 = λ b p. h b (ground (arith, p)) in
      master_loop-Good hash s rest
        (if is_alive_or_group_alive s a then point_loop hash a (consistent_hash a) best else best)
        later
        (elim (Bool-cases (is_alive_or_group_alive s a)) [
          | inl e ↦
              rw e (point_loop-Good s hash a (consistent_hash a) best (e, h a (ground arith)) good)
          | inr e ↦ rw e good
        ])

-- get_one of a group moves no address.
prefer-HasMasters :
    (t t' : Upstream) (r r' : Option ℕ)
    → HasMasters t
    → HasMasters t'
    → HasMasters (prefer (r', t) t' r).1
prefer-HasMasters t t' none r' h h' = h
prefer-HasMasters t t' (some a) r' h h' = h'

check_get_strong-HasMasters :
    (shuffle : List ℕ → List ℕ) (a : ℕ) (s : Upstream)
    → HasMasters s
    → HasMasters (check_get_strong shuffle a s).1
unfolding check_get_strong get_one
check_get_strong-HasMasters shuffle a s h = elim (Bool-cases (is_alive s a)) [
  | inl e ↦ rw e h
  | inr e ↦ elim (Bool-cases (is_grouped s a)) [
    | inr k ↦ rw (e, k) h
    | inl k ↦
        let g = s.group a in
        let xs = shuffle (s.masters g) in
        let ys = shuffle (s.slaves g) in
        elim (Bool-cases (s.nalive g == 0)) [
          | inl z ↦ rw (e, k, z) h
          | inr z ↦
              rw (e, k, z)
                (prefer-HasMasters
                  (record s { masters = update s.masters g xs; slaves = update s.slaves g ys })
                  (record s { masters = update s.masters g xs }) (first_alive s xs)
                  (first_alive s ys) h h)
        ]
  ]
]

module _ (shuffle : List ℕ → List ℕ) (shuffles : (xs : List ℕ) → IsShuffle (shuffle xs) xs)
    (consistent_hash : ℕ → List ℕ) where
  hash_select-IsAnswer :
      (hash : ℕ) (s : Upstream)
      → IsHealthy s
      → HasMasters s
      → IsAnswer (hash_select shuffle consistent_hash hash s)
  unfolding hash_select closest_master
  hash_select-IsAnswer hash s v h =
      get_weak-IsAnswer shuffle shuffles (closest_master consistent_hash hash s).1 s v
        (master_loop-Good consistent_hash hash s s.all_masters (2 ^ 32 - 1, none) h tt)

  another-IsAnswer :
      (c : Choice) (select : Option ℕ) (s : Upstream)
      → IsHealthy s
      → HasMasters s
      → IsAnswer (another shuffle consistent_hash c select s)
  unfolding weighted_random_try_another
  another-IsAnswer c (some idx) s v h = hash_select-IsAnswer c.hash s v h
  another-IsAnswer c none s v h = elim (Bool-cases (s.available_weight == 0)) [
    | inl e ↦ rw e v
    | inr e ↦
        let x = c.random_another % divisor s.available_weight in
        rw e (
          get_weak-IsAnswer shuffle shuffles (weighted_loop s x s.all_masters none 0) s v
            (weighted_loop-Good s x s.all_masters none 0 h tt))
  ]

  or_another-IsAnswer :
      (c : Choice) (r : Option ℕ × Upstream)
      → IsAnswer r
      → HasMasters r.1
      → IsAnswer (or_another shuffle c.try_another (another shuffle consistent_hash c c.select) r)
  or_another-IsAnswer c (none, s) v h = tried c.try_another
    where
      tried :
          (try_another : Bool)
          → IsAnswer (
              or_another shuffle try_another (another shuffle consistent_hash c c.select) (none, s))
      tried true = another-IsAnswer c c.select s v h
      tried false = v
  or_another-IsAnswer c (some a, s) v h = tried c.try_another
    where
      tried :
          (try_another : Bool)
          → IsAnswer (
              or_another shuffle try_another
                (another shuffle consistent_hash c c.select)
                (some a, s))
      tried true = v
      tried false = v

  from_master-IsAnswer :
      (c : Choice) (groups : List ℕ) (now a : ℕ) (s : Upstream)
      → IsHealthy s
      → HasMasters s
      → IsAnswer (from_master shuffle consistent_hash c groups now a s)
  unfolding from_master
  from_master-IsAnswer c groups now a s v h = elim (Bool-cases (is_alive s a)) [
    | inl e ↦ rw e (e, v)
    | inr e ↦
        let (v', h') = check_all_breaker-keeps groups now s v h in
        let s' = check_all_breaker groups now s in
        rw e (
          or_another-IsAnswer c (check_get_strong shuffle a s')
            (check_get_strong-IsAnswer shuffle shuffles a s' v')
            (check_get_strong-HasMasters shuffle a s' h'))
  ]

  get_from-IsAnswer :
      (c : Choice) (groups : List ℕ) (now : ℕ) (masters : List ℕ) (s : Upstream)
      → IsHealthy s
      → HasMasters s
      → IsAnswer (get_from shuffle consistent_hash c groups now masters s)
  get_from-IsAnswer c groups now [] s v h = v
  get_from-IsAnswer c groups now (a ∷ rest) s v h =
      let first = first_choice s c.select c.random a rest in
      or_slave-IsAnswer shuffle shuffles (from_master shuffle consistent_hash c groups now first s)
        (from_master-IsAnswer c groups now first s v h)

  -- Whatever the callbacks, the random numbers and the shuffles, get of a healthy upstream whose masters
  -- are in groups returns NULL or an address that is alive, and leaves the upstream healthy.
  pub get-IsAnswer :
      (c : Choice) (groups : List ℕ) (now : ℕ) (s : Upstream)
      → IsHealthy s
      → HasMasters s
      → IsAnswer (get shuffle consistent_hash c groups now s)
  unfolding get
  get-IsAnswer c groups now s v h = elim (Bool-cases c.is_consistent) [
    | inl e ↦
        let (v', h') = check_all_breaker-keeps groups now s v h in
        let s' = check_all_breaker groups now s in
        simp e (
          or_slave-IsAnswer shuffle shuffles (hash_select shuffle consistent_hash c.hash s')
            (hash_select-IsAnswer c.hash s' v' h'))
    | inr e ↦ simp e (get_from-IsAnswer c groups now s.all_masters s v h)
  ]
