-- ===== src/Upstream/Get/Alive.antt =====
-- What Upstream::get returns is alive.
use mathlib.Core.Path.{subst}
use demo_submodule.Prelude.{
  ℕ, ◌<◌, ◌≡◌, ◌≢◌, refl, Bool, true, false, Option, none, some, List, [], ◌∷◌, ◌==◌, update, count,
  arith, Bool-cases, inl, inr,
}
use demo_submodule.Upstream.{Upstream, is_alive, is_grouped, first_alive, prefer, get_one}
use demo_submodule.Upstream.Healthy.{IsHealthy, tally}
use demo_submodule.Upstream.Choice.{IsShuffle, FoundIn, first_alive-FoundIn, Picks, get_one-Picks}
use demo_submodule.Upstream.Steps.{shuffled-IsHealthy, update-IsShuffle}
use demo_submodule.Upstream.Select.{is_alive_or_group_alive, instead, check_get_weak}
use demo_submodule.Upstream.Get.{get_one_slave, check_get_strong, get_weak, or_slave}

-- An address that is alive, or NULL, of a healthy upstream.
abbrev pub IsAnswer : Option ℕ × Upstream → Type 0
IsAnswer (none, s) = IsHealthy s
IsAnswer (some a, s) = (is_alive s a ≡ true) × IsHealthy s

-- The masters of the upstream are in groups.
abbrev pub HasMasters : Upstream → Type 0
HasMasters s = (a : ℕ) → 0 < count a s.all_masters → s.group a ≢ 0

abbrev pub Good : Upstream → Option ℕ → Type 0
Good s none = Unit
Good s (some a) = (is_alive_or_group_alive s a ≡ true) × (s.group a ≢ 0)

found_alive : (s : Upstream) (xs : List ℕ) (a : ℕ) → first_alive s xs ≡ some a → is_alive s a ≡ true
unfolding FoundIn
found_alive s xs a e = (subst (λ r. FoundIn s xs r) e (first_alive-FoundIn s xs)).1

preferred :
    (g : ℕ) (xs ys : List ℕ) (s : Upstream) (r r' : Option ℕ)
    → IsHealthy s
    → IsShuffle xs (s.masters g)
    → IsShuffle ys (s.slaves g)
    → ((a : ℕ) → r ≡ some a → is_alive s a ≡ true)
    → ((a : ℕ) → r' ≡ some a → is_alive s a ≡ true)
    → IsAnswer (
        prefer
          (r', record s { masters = update s.masters g xs; slaves = update s.slaves g ys })
          (record s { masters = update s.masters g xs })
          r)
preferred g xs ys s (some a) r' v h k l l' = (
  l a refl,
  shuffled-IsHealthy s (update s.masters g xs) s.slaves v (update-IsShuffle g xs s.masters h)
      (λ i x. refl),
)
preferred g xs ys s none (some a) v h k l l' = (
  l' a refl,
  shuffled-IsHealthy s (update s.masters g xs) (update s.slaves g ys) v
      (update-IsShuffle g xs s.masters h) (update-IsShuffle g ys s.slaves k),
)
preferred g xs ys s none none v h k l l' =
    shuffled-IsHealthy s (update s.masters g xs) (update s.slaves g ys) v
      (update-IsShuffle g xs s.masters h) (update-IsShuffle g ys s.slaves k)

get_one-IsAnswer :
    (g : ℕ) (xs ys : List ℕ) (s : Upstream)
    → IsHealthy s
    → IsShuffle xs (s.masters g)
    → IsShuffle ys (s.slaves g)
    → IsAnswer (get_one g xs ys s)
unfolding get_one
get_one-IsAnswer g xs ys s v h k = elim (Bool-cases (s.nalive g == 0)) [
  | inl e ↦ rw e v
  | inr e ↦ rw e (
      preferred g xs ys s (first_alive s xs) (first_alive s ys) v h k (found_alive s xs)
        (found_alive s ys))
]

-- A group that counts an address has one that is alive.
tally_dead :
    (f : ℕ → Bool) (xs : List ℕ) → ((x : ℕ) → 0 < count x xs → f x ≡ false) → tally f xs ≡ 0
tally_dead f [] h = refl
tally_dead f (x ∷ xs) h =
    let dead : f x ≡ false = h x (ground arith) in
    ground (arith, dead, tally_dead f xs (λ y p. h y (ground (arith, p))))

counted-alive : (g : ℕ) (s : Upstream) → IsHealthy s → 0 < g → Picks g s none → s.nalive g ≡ 0
unfolding Picks
counted-alive g s v p dead = omega (
  arith,
  v.counts.alive g p,
  tally_dead (is_alive s) (s.masters g)
      (λ x h. dead x (ground (arith, v.counts.in_masters g x p, h))),
  tally_dead (is_alive s) (s.slaves g)
      (λ x h. dead x (ground (arith, v.counts.in_slaves g x p, h))),
)

instead-IsAnswer :
    (a : ℕ) (r : Option ℕ × Upstream) → IsAnswer r → r.0 ≢ none → IsAnswer (instead a r)
instead-IsAnswer a (none, s) h k = absurd (k refl)
instead-IsAnswer a (some b, s) h k = h

module _ (shuffle : List ℕ → List ℕ) (shuffles : (xs : List ℕ) → IsShuffle (shuffle xs) xs) where
  pub get_weak-IsAnswer :
      (o : Option ℕ) (s : Upstream) → IsHealthy s → Good s o → IsAnswer (get_weak shuffle o s)
  unfolding get_weak check_get_weak
  get_weak-IsAnswer none s v good = v
  get_weak-IsAnswer (some a) s v (good, grouped) =
      let g = s.group a in
      elim (Bool-cases (is_alive s a)) [
        | inl e ↦ rw e (e, v)
        | inr e ↦ elim (Bool-cases (is_grouped s a)) [
          | inl k ↦
              let xs = shuffle (s.masters g) in
              let ys = shuffle (s.slaves g) in
              let counts : 0 < s.nalive g = ground (arith, good, e, k) in
              let p : 0 < g = omega (arith, grouped) in
              let some_one : (get_one g xs ys s).0 ≢ none = λ d.
                let picks =
                  get_one-Picks g xs ys s v p (shuffles (s.masters g)) (shuffles (s.slaves g)) in
                let zero_ = counted-alive g s v p (subst (λ r. Picks g s r) d picks) in
                omega (arith, zero_, counts) in
              rw (e, k)
                (instead-IsAnswer a (get_one g xs ys s)
                  (get_one-IsAnswer g xs ys s v (shuffles (s.masters g)) (shuffles (s.slaves g)))
                  some_one)
          | inr k ↦ absurd (ground (arith, good, e, k))
        ]
      ]

  get_one_slave-IsAnswer :
      (g : ℕ) (s : Upstream) → IsHealthy s → IsAnswer (get_one_slave shuffle g s)
  unfolding get_one_slave
  get_one_slave-IsAnswer g s v = elim (Bool-cases (s.nalive g == 0)) [
    | inl e ↦ rw e v
    | inr e ↦
        rw e (slave (first_alive s (shuffle (s.slaves g))) (found_alive s (shuffle (s.slaves g))))
  ]
    where
      slave :
          (r : Option ℕ)
          → ((a : ℕ) → r ≡ some a → is_alive s a ≡ true)
          → IsAnswer (r, record s { slaves = update s.slaves g (shuffle (s.slaves g)) })
      slave none l =
          shuffled-IsHealthy s s.masters (update s.slaves g (shuffle (s.slaves g))) v (λ i x. refl)
            (update-IsShuffle g (shuffle (s.slaves g)) s.slaves (shuffles (s.slaves g)))
      slave (some a) l = (
        l a refl,
        shuffled-IsHealthy s s.masters (update s.slaves g (shuffle (s.slaves g))) v (λ i x. refl)
            (update-IsShuffle g (shuffle (s.slaves g)) s.slaves (shuffles (s.slaves g))),
      )

  pub check_get_strong-IsAnswer :
      (a : ℕ) (s : Upstream) → IsHealthy s → IsAnswer (check_get_strong shuffle a s)
  unfolding check_get_strong
  check_get_strong-IsAnswer a s v = elim (Bool-cases (is_alive s a)) [
    | inl e ↦ rw e (e, v)
    | inr e ↦ elim (Bool-cases (is_grouped s a)) [
      | inl k ↦
          rw (e, k)
            (get_one-IsAnswer (s.group a) (shuffle (s.masters (s.group a)))
              (shuffle (s.slaves (s.group a))) s v (shuffles (s.masters (s.group a)))
              (shuffles (s.slaves (s.group a))))
      | inr k ↦ rw (e, k) v
    ]
  ]

  pub or_slave-IsAnswer : (r : Option ℕ × Upstream) → IsAnswer r → IsAnswer (or_slave shuffle r)
  or_slave-IsAnswer (none, s) h = get_one_slave-IsAnswer 1 s h
  or_slave-IsAnswer (some a, s) h = h
