-- ===== src/Upstream/Get.antt =====
-- Upstream::get: the choice of an address for a URI. `shuffle` is std::shuffle, `random` what rand
-- returns, `hash` the value of the consistent callback, or of the default hash, for the URI, and
-- `select` that of the select callback, if there is one. A sum of weights is below 2^31. `groups` are
-- the groups of `group_map_` in their order.
pub mod Alive
pub mod Answers
use demo_submodule.Prelude.{
  ℕ, ◌+◌, ◌-◌, ◌%◌, ◌^◌, Bool, true, ◌&&◌, Option, none, some, List, [], ◌∷◌, ltb, leb, ◌==◌,
  if◌then◌else◌, update, length, get_or,
}
use demo_submodule.Upstream.{
  Upstream, is_alive, is_grouped, first_alive, get_one, check_one_breaker,
}
use demo_submodule.Upstream.Select.{is_alive_or_group_alive, check_get_weak, closest_master}

-- Upstream::check_all_breaker
pub check_all_breaker : List ℕ → (now : ℕ) → Upstream → Upstream
check_all_breaker [] now s = s
check_all_breaker (g ∷ rest) now s = check_all_breaker rest now (check_one_breaker g now s)

-- The divisor of `rand() % weight`, where a negative `int` counts by its magnitude.
abbrev pub divisor : ℕ → ℕ
divisor weight = if ltb weight (2 ^ 31) then weight else 2 ^ 32 - weight

-- The loop of weighted_random_try_another: `ua` and `s`.
pub weighted_loop : Upstream → (x : ℕ) → List ℕ → (ua : Option ℕ) → (sum : ℕ) → Option ℕ
weighted_loop s x [] ua sum = ua
weighted_loop s x (a ∷ rest) ua sum =
    let go_on = weighted_loop s x rest (some a) (sum + s.weight a) in
    let skip = weighted_loop s x rest ua sum in
    if is_alive_or_group_alive s a
    then (if ltb x (sum + s.weight a) then some a else go_on)
    else skip

-- The loop of get over the weights, where no callback selects; the last master if it runs through.
pub pick_loop : Upstream → (x : ℕ) → (master : ℕ) → List ℕ → (sum : ℕ) → ℕ
pick_loop s x a [] sum = a
pick_loop s x a (b ∷ rest) sum =
    let go_on = pick_loop s x b rest (sum + s.weight a) in
    if ltb x (sum + s.weight a) then a else go_on

-- The master that get looks at first.
abbrev pub first_choice : Upstream → (select : Option ℕ) → (random master : ℕ) → List ℕ → ℕ
first_choice s select random a [] = a
first_choice s (some idx) random a rest =
    let n = length (a ∷ rest) in get_or (a ∷ rest) (if leb n idx then idx % n else idx) a
first_choice s none random a rest =
    let x =
      (if ltb 0 s.total_weight && ltb s.total_weight (2 ^ 31)
        then random % s.total_weight
        else 0) in
    pick_loop s x a rest 0

module _ (shuffle : List ℕ → List ℕ) where
  -- UpstreamGroup::get_one_slave
  pub get_one_slave : ℕ → Upstream → Option ℕ × Upstream
  get_one_slave g s = if s.nalive g == 0 then (none, s) else (
    first_alive s (shuffle (s.slaves g)),
    record s { slaves = update s.slaves g (shuffle (s.slaves g)) },
  )

  -- get_one of the group of an address
  abbrev pub get_one_of : ℕ → Upstream → Option ℕ × Upstream
  get_one_of g s = get_one g (shuffle (s.masters g)) (shuffle (s.slaves g)) s

  -- __check_get_strong
  pub check_get_strong : ℕ → Upstream → Option ℕ × Upstream
  check_get_strong a s =
      if is_alive s a
      then (some a, s)
      else if is_grouped s a
      then get_one_of (s.group a) s
      else (none, s)

  -- __check_get_weak, with the vectors of the group of the address
  pub get_weak : Option ℕ → Upstream → Option ℕ × Upstream
  get_weak none s = (none, s)
  get_weak (some a) s =
      check_get_weak (shuffle (s.masters (s.group a))) (shuffle (s.slaves (s.group a))) (some a) s

  pub weighted_random_try_another : (random : ℕ) → Upstream → Option ℕ × Upstream
  weighted_random_try_another random s =
      if s.available_weight == 0
      then (none, s)
      else get_weak (weighted_loop s (random % divisor s.available_weight) s.all_masters none 0) s

  -- `if (!ua) ua = default_group_->get_one_slave()`
  abbrev pub or_slave : Option ℕ × Upstream → Option ℕ × Upstream
  or_slave (none, s) = get_one_slave 1 s
  or_slave (some a, s) = (some a, s)

  abbrev pub or_another :
      (try_another : Bool)
      → (Upstream → Option ℕ × Upstream)
      → Option ℕ × Upstream
      → Option ℕ × Upstream
  or_another true another (none, s) = another s
  or_another try_another another chosen = chosen

-- What a URI and the attributes of an upstream make of the choice.
pub record Choice : Type 0 where
  pub is_consistent : Bool
  pub try_another : Bool
  pub hash : ℕ
  pub select : Option ℕ
  pub random : ℕ
  pub random_another : ℕ

module _ (shuffle : List ℕ → List ℕ) (consistent_hash : ℕ → List ℕ) where
  -- Upstream::consistent_hash_select, with the vectors of the group of the closest master
  pub hash_select : ℕ → Upstream → Option ℕ × Upstream
  hash_select hash s = get_weak shuffle (closest_master consistent_hash hash s).1 s

  abbrev pub another : Choice → (select : Option ℕ) → Upstream → Option ℕ × Upstream
  another c none s = weighted_random_try_another shuffle c.random_another s
  another c (some idx) s = hash_select c.hash s

  pub from_master : Choice → (groups : List ℕ) → (now master : ℕ) → Upstream → Option ℕ × Upstream
  from_master c groups now a s =
      if is_alive s a
      then (some a, s)
      else or_another shuffle c.try_another (another c c.select)
          (check_get_strong shuffle a (check_all_breaker groups now s))

  abbrev pub get_from :
      Choice → (groups : List ℕ) → (now : ℕ) → (masters : List ℕ) → Upstream → Option ℕ × Upstream
  get_from c groups now [] s = (none, s)
  get_from c groups now (a ∷ rest) s =
      or_slave shuffle (from_master c groups now (first_choice s c.select c.random a rest) s)

  -- Upstream::get
  pub get : Choice → (groups : List ℕ) → (now : ℕ) → Upstream → Option ℕ × Upstream
  get c groups now s =
      if c.is_consistent
      then or_slave shuffle (hash_select c.hash (check_all_breaker groups now s))
      else get_from c groups now s.all_masters s
