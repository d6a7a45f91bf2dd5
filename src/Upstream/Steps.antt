-- ===== src/Upstream/Steps.antt =====
-- The states of an upstream: what any operations, in any order, make of a fresh one.
use demo_submodule.Prelude.{
  count, ℕ, ◌+◌, ◌^◌, ◌<◌, ◌≡◌, refl, sym, ap, ◌∙◌, Bool, Option, none, some, List, arith, ◌==◌,
  update, Bool-cases, inl, inr,
}
use demo_submodule.Upstream.{
  Upstream, is_alive, first_alive, prefer, create, get_one, add, del, disable_server, enable_server,
  notify_available, notify_unavailable, check_one_breaker,
}
use demo_submodule.Upstream.Healthy.{IsHealthy}
use demo_submodule.Upstream.Breakers.{
  notify_unavailable-IsHealthy, notify_available-IsHealthy, disable_loop-IsHealthy,
  enable_loop-IsHealthy,
}
use demo_submodule.Upstream.Members.{IsFresh, add-IsHealthy}
use demo_submodule.Upstream.Leaving.{del-IsHealthy}
use demo_submodule.Upstream.Checks.{check_one_breaker-IsHealthy}
use demo_submodule.Upstream.Choice.{IsShuffle, tally-IsShuffle}

-- The vectors of the groups are shuffled.
pub shuffled-IsHealthy :
    (s : Upstream) (masters slaves : ℕ → List ℕ)
    → IsHealthy s
    → ((g : ℕ) → IsShuffle (masters g) (s.masters g))
    → ((g : ℕ) → IsShuffle (slaves g) (s.slaves g))
    → IsHealthy (record s { masters = masters; slaves = slaves })
shuffled-IsHealthy s masters slaves v h k = record {
  counts = record {
    in_masters = λ g a p. h g a ∙ v.counts.in_masters g a p;
    in_slaves = λ g a p. k g a ∙ v.counts.in_slaves g a p;
    alive = λ g p. omega (
      arith,
      v.counts.alive g p,
      tally-IsShuffle (is_alive s) (masters g) (s.masters g) (h g),
      tally-IsShuffle (is_alive s) (slaves g) (s.slaves g) (k g),
    );
    broken = v.counts.broken;
    breakers = v.counts.breakers;
    some_fails = v.counts.some_fails;
  };
  mapped = v.mapped;
}

pub update-IsShuffle :
    (g : ℕ) (xs : List ℕ) (lists : ℕ → List ℕ)
    → IsShuffle xs (lists g)
    → (h : ℕ) → IsShuffle (update lists g xs h) (lists h)
update-IsShuffle g xs lists e h x = elim (Bool-cases (h == g)) [
  | inl z ↦
      let same : count x (lists h) ≡ count x (lists g) =
        ap (λ i. count x (lists i)) (ground arith) in
      rw z (e x ∙ sym same)
  | inr z ↦ rw z refl
]

pub get_one-IsHealthy :
    (g : ℕ) (shuffled shuffled_slaves : List ℕ) (s : Upstream)
    → IsHealthy s
    → IsShuffle shuffled (s.masters g)
    → IsShuffle shuffled_slaves (s.slaves g)
    → IsHealthy (get_one g shuffled shuffled_slaves s).1
unfolding get_one
get_one-IsHealthy g xs ys s v h k = elim (Bool-cases (s.nalive g == 0)) [
  | inl e ↦ rw e v
  | inr e ↦ rw e (preferred (first_alive s xs))
]
  where
    preferred :
        (r : Option ℕ)
        → IsHealthy
            (prefer
              (
                first_alive s ys,
                record s { masters = update s.masters g xs; slaves = update s.slaves g ys },
              )
              (record s { masters = update s.masters g xs })
              r).1
    preferred none =
        shuffled-IsHealthy s (update s.masters g xs) (update s.slaves g ys) v
          (update-IsShuffle g xs s.masters h) (update-IsShuffle g ys s.slaves k)
    preferred (some a) =
        shuffled-IsHealthy s (update s.masters g xs) s.slaves v (update-IsShuffle g xs s.masters h)
          (λ i x. refl)

pub data Step : Upstream → Upstream → Type 0 where
  adds : (a : ℕ) (s : Upstream) → IsFresh s a → Step s (add a s)
  deletes : (name : ℕ) (s : Upstream) → Step s (del name s).1
  disables : (now name : ℕ) (s : Upstream) → Step s (disable_server now name s)
  enables : (name : ℕ) (s : Upstream) → Step s (enable_server name s)
  fails :
      (now a : ℕ) (s : Upstream) → s.fail_count a + 1 < 2 ^ 32 → Step s (notify_unavailable now a s)
  answers : (a : ℕ) (s : Upstream) → Step s (notify_available a s)
  checks : (g now : ℕ) (s : Upstream) → Step s (check_one_breaker g now s)
  picks :
      (g : ℕ) (shuffled shuffled_slaves : List ℕ) (s : Upstream)
      → IsShuffle shuffled (s.masters g)
      → IsShuffle shuffled_slaves (s.slaves g)
      → Step s (get_one g shuffled shuffled_slaves s).1

pub data Steps : Upstream → Upstream → Type 0 where
  stays : (s : Upstream) → Steps s s
  then_steps : (s u w : Upstream) → Step s u → Steps u w → Steps s w

Step-IsHealthy : (s u : Upstream) → Step s u → IsHealthy s → IsHealthy u
unfolding disable_server enable_server
Step-IsHealthy _ _ (adds a s new) v = add-IsHealthy a s v new
Step-IsHealthy _ _ (deletes name s) v = del-IsHealthy name s v
Step-IsHealthy _ _ (disables now name s) v = disable_loop-IsHealthy now (s.server_map name) s v
Step-IsHealthy _ _ (enables name s) v = enable_loop-IsHealthy (s.server_map name) s v
Step-IsHealthy _ _ (fails now a s small) v = notify_unavailable-IsHealthy now a s v small
Step-IsHealthy _ _ (answers a s) v = notify_available-IsHealthy a s v
Step-IsHealthy _ _ (checks g now s) v = check_one_breaker-IsHealthy g now s v
Step-IsHealthy _ _ (picks g xs ys s h k) v = get_one-IsHealthy g xs ys s v h k

Steps-IsHealthy : (s u : Upstream) → Steps s u → IsHealthy s → IsHealthy u
Steps-IsHealthy _ _ (stays s) v = v
Steps-IsHealthy _ _ (then_steps s u w first rest) v =
    Steps-IsHealthy u w rest (Step-IsHealthy s u first v)

-- After any operations in any order on a fresh upstream, as long as no counter of fails wraps round,
-- the addresses that are added were just made and a shuffle only shuffles, each group counts
-- exactly its addresses that are alive, an address of a group has a breaker exactly if it is not
-- alive, and the map holds exactly the addresses of groups, by their names.
pub create-IsHealthy :
    (address : ℕ → ℕ) (group_id : ℕ → Option ℕ) (is_master : ℕ → Bool) (weight max_fails : ℕ → ℕ)
    (u : Upstream)
    → Steps (create address group_id is_master weight max_fails) u
    → IsHealthy u
unfolding create
create-IsHealthy address group_id is_master weight max_fails u steps =
    Steps-IsHealthy _ u steps (record {
      counts = record {
        in_masters = λ g a p. ground arith;
        in_slaves = λ g a p. ground arith;
        alive = λ g p. refl;
        broken = λ a ne. absurd (ne refl);
        breakers = λ g a p. inl refl;
        some_fails = λ a. ground arith;
      };
      mapped = λ name a. refl;
    })
