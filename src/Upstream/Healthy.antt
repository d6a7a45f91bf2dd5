-- ===== src/Upstream/Healthy.antt =====
-- A healthy upstream: its groups count the addresses that are alive.
use mathlib.Core.Path.{subst}
use demo_submodule.Prelude.{
  erase, count, erase, ℕ, ◌+◌, ◌<◌, ◌≡◌, ◌≢◌, ◌⊎◌, refl, sym, ap, ◌∙◌, Bool, false, ◌&&◌, not, List,
  [], ◌∷◌, ◌++◌, arith, ◌==◌, if◌then◌else◌, Bool-cases, inl, inr,
}
use demo_submodule.Upstream.{Upstream, is_alive}

-- How many of the addresses pass the test.
abbrev pub tally : (ℕ → Bool) → List ℕ → ℕ
tally test [] = 0
tally test (x ∷ xs) = (if test x then 1 else 0) + tally test xs

-- The addresses stand in the vectors of the groups that they are in; a group counts those of them
-- that are alive; an address of a group has a breaker exactly if it is not alive; only addresses of
-- a group, or of none any more, have a breaker there.
pub record IsCounted (s : Upstream) : Type 0 where
  pub in_masters :
      (g a : ℕ)
      → 0 < g
      → count a (s.masters g) ≡ (if (s.group a == g) && s.is_master a then 1 else 0)
  pub in_slaves :
      (g a : ℕ)
      → 0 < g
      → count a (s.slaves g) ≡ (if (s.group a == g) && not (s.is_master a) then 1 else 0)
  pub alive :
      (g : ℕ)
      → 0 < g
      → s.nalive g ≡ tally (is_alive s) (s.masters g) + tally (is_alive s) (s.slaves g)
  pub broken : (a : ℕ) → s.group a ≢ 0 → s.listed a ≡ not (is_alive s a)
  pub breakers : (g a : ℕ) → 0 < count a (s.breaker_list g) → (s.group a ≡ 0) ⊎ (s.group a ≡ g)
  pub some_fails : (a : ℕ) → 0 < s.max_fails a

-- Besides, the map of the upstream holds exactly the addresses that are in a group, by their names.
pub record IsHealthy (s : Upstream) : Type 0 where
  pub counts : IsCounted s
  pub mapped :
      (name a : ℕ)
      → count a (s.server_map name)
        ≡ (if not (s.group a == 0) && (s.address a == name) then 1 else 0)

pub tally-append : (f : ℕ → Bool) (xs ys : List ℕ) → tally f (xs ++ ys) ≡ tally f xs + tally f ys
tally-append f [] ys = omega arith
tally-append f (z ∷ xs) ys = omega (arith, tally-append f xs ys)

-- A test of the members does not look at an address that is none.
pub tally_absent :
    (f f' : ℕ → Bool) (a : ℕ) (xs : List ℕ)
    → ((x : ℕ) → x ≢ a → f' x ≡ f x)
    → count a xs ≡ 0
    → tally f' xs ≡ tally f xs
tally_absent f f' a [] h e = refl
tally_absent f f' a (x ∷ xs) h e =
    let same : f' x ≡ f x = h x (ground arith) in ground (arith, same, tally_absent f f' a xs h)

pub tally_present :
    (f f' : ℕ → Bool) (a : ℕ) (xs : List ℕ)
    → ((x : ℕ) → x ≢ a → f' x ≡ f x)
    → count a xs ≡ 1
    → tally f' xs + (if f a then 1 else 0) ≡ tally f xs + (if f' a then 1 else 0)
tally_present f f' a [] h e = absurd (omega arith)
tally_present f f' a (x ∷ xs) h e = elim (Bool-cases (x == a)) [
  | inl z ↦
      let rest : count a xs ≡ 0 = ground arith in
      let here : x ≡ a = ground arith in
      let same : f x ≡ f a = ap f here in
      let same' : f' x ≡ f' a = ap f' here in
      ground (arith, same, same', tally_absent f f' a xs h rest)
  | inr z ↦
      let rest : count a xs ≡ 1 = ground arith in
      let same : f' x ≡ f x = h x (ground arith) in
      ground (arith, same, tally_present f f' a xs h rest)
]

pub tally-erase :
    (f : ℕ → Bool) (a : ℕ) (xs : List ℕ)
    → 0 < count a xs
    → tally f (erase a xs) + (if f a then 1 else 0) ≡ tally f xs
tally-erase f a [] h = absurd (omega arith)
tally-erase f a (x ∷ xs) h = elim (Bool-cases (x == a)) [
  | inl z ↦ let same : f x ≡ f a = ap f (ground arith) in rw z (ground (arith, same))
  | inr z ↦ rw z (ground (arith, tally-erase f a xs))
]

-- An operation on the address `a` that moves no address.
pub record Touches (a : ℕ) (s s' : Upstream) : Type 0 where
  pub masters : s'.masters ≡ s.masters
  pub slaves : s'.slaves ≡ s.slaves
  pub group : s'.group ≡ s.group
  pub is_master : s'.is_master ≡ s.is_master
  pub max_fails : s'.max_fails ≡ s.max_fails
  pub server_map : s'.server_map ≡ s.server_map
  pub address : s'.address ≡ s.address
  pub fail_count : (x : ℕ) → x ≢ a → s'.fail_count x ≡ s.fail_count x
  pub listed : (x : ℕ) → x ≢ a → s'.listed x ≡ s.listed x
  pub broken : s.group a ≢ 0 → s'.listed a ≡ not (is_alive s' a)
  pub counted :
      s.group a ≢ 0
      → s'.nalive (s.group a) + (if is_alive s a then 1 else 0)
        ≡ s.nalive (s.group a) + (if is_alive s' a then 1 else 0)
  pub nalive : (g : ℕ) → 0 < g → g ≢ s.group a → s'.nalive g ≡ s.nalive g
  pub breakers :
      (g x : ℕ)
      → 0 < count x (s'.breaker_list g)
      → (0 < count x (s.breaker_list g)) ⊎ ((x ≡ a) × (s.group a ≡ g))

Touches-IsCounted : (a : ℕ) (s s' : Upstream) → IsCounted s → Touches a s s' → IsCounted s'
Touches-IsCounted a s s' v t =
    let is_m = λ (x : ℕ). ap (λ (f : ℕ → Bool). f x) t.is_master in
    let grp = λ (x : ℕ). ap (λ (f : ℕ → ℕ). f x) t.group in
    let mst = λ (g : ℕ). ap (λ (f : ℕ → List ℕ). f g) t.masters in
    let slv = λ (g : ℕ). ap (λ (f : ℕ → List ℕ). f g) t.slaves in
    let max = λ (x : ℕ). ap (λ (f : ℕ → ℕ). f x) t.max_fails in
    let others : (x : ℕ) → x ≢ a → is_alive s' x ≡ is_alive s x =
      λ x ne. ground (arith, t.fail_count x ne, max x) in
    record {
      in_masters = λ g x p. rw (mst g, is_m x, grp x) (v.in_masters g x p);
      in_slaves = λ g x p. rw (slv g, is_m x, grp x) (v.in_slaves g x p);
      alive = λ g p.
          rw (mst g, slv g)
            (elim (Bool-cases (g == s.group a)) [
              | inl z ↦
                  let e : g ≡ s.group a = ground arith in
                  let counted = t.counted (ground arith) in
                  let now = ap s'.nalive e in
                  let before = ap s.nalive e in
                  elim (Bool-cases (s.is_master a)) [
                    | inl m ↦
                        let here : count a (s.masters g) ≡ 1 = ground (arith, v.in_masters g a p) in
                        let not_here : count a (s.slaves g) ≡ 0 =
                          ground (arith, v.in_slaves g a p) in
                        omega (
                          arith,
                          counted,
                          now,
                          before,
                          v.alive g p,
                          tally_present (is_alive s) (is_alive s') a (s.masters g) others here,
                          tally_absent (is_alive s) (is_alive s') a (s.slaves g) others not_here,
                        )
                    | inr m ↦
                        let not_here : count a (s.masters g) ≡ 0 =
                          ground (arith, v.in_masters g a p) in
                        let here : count a (s.slaves g) ≡ 1 = ground (arith, v.in_slaves g a p) in
                        omega (
                          arith,
                          counted,
                          now,
                          before,
                          v.alive g p,
                          tally_absent (is_alive s) (is_alive s') a (s.masters g) others not_here,
                          tally_present (is_alive s) (is_alive s') a (s.slaves g) others here,
                        )
                  ]
              | inr z ↦
                  let away : (s.group a == g) ≡ false = ground arith in
                  let no_master : count a (s.masters g) ≡ 0 = ground (arith, v.in_masters g a p) in
                  let no_slave : count a (s.slaves g) ≡ 0 = ground (arith, v.in_slaves g a p) in
                  omega (
                    arith,
                    t.nalive g p (ground arith),
                    v.alive g p,
                    tally_absent (is_alive s) (is_alive s') a (s.masters g) others no_master,
                    tally_absent (is_alive s) (is_alive s') a (s.slaves g) others no_slave,
                  )
            ]);
      broken = λ x ne. elim (Bool-cases (x == a)) [
        | inl z ↦
            let here : x ≡ a = ground arith in
            subst (λ y. s'.listed y ≡ not (is_alive s' y)) (sym here)
              (t.broken (λ e. ne (grp x ∙ ap s.group here ∙ e)))
        | inr z ↦
            let away : x ≢ a = ground arith in
            t.listed x away ∙ v.broken x (λ e. ne (grp x ∙ e)) ∙ ap not (sym (others x away))
      ];
      breakers = λ g x p. elim (t.breakers g x p) [
        | inl q ↦ rw (grp x) (v.breakers g x q)
        | inr (e, h) ↦ inr (grp x ∙ ap s.group e ∙ h)
      ];
      some_fails = λ x. rw (max x) (v.some_fails x);
    }

pub Touches-IsHealthy : (a : ℕ) (s s' : Upstream) → IsHealthy s → Touches a s s' → IsHealthy s'
Touches-IsHealthy a s s' v t = record {
  counts = Touches-IsCounted a s s' v.counts t;
  mapped = λ name x.
      rw
        (
          ap (λ (f : ℕ → List ℕ). f name) t.server_map,
          ap (λ (f : ℕ → ℕ). f x) t.group,
          ap (λ (f : ℕ → ℕ). f x) t.address,
        )
        (v.mapped name x);
}
