-- ===== src/Upstream/Select.antt =====
-- The choice by consistent hash among the masters of an upstream. `consistent_hash` is the array of
-- hashes that std::hash makes of the name of an address. An `unsigned int` is a number below 2^32.
pub mod Closest
use demo_submodule.Prelude.{
  ℕ, ◌+◌, ◌-◌, ◌%◌, ◌^◌, Bool, ◌&&◌, ◌||◌, not, Option, none, some, List, [], ◌∷◌, ltb,
  if◌then◌else◌,
}
use demo_submodule.Upstream.{Upstream, is_alive, is_grouped, get_one}

abbrev pub is_alive_or_group_alive : Upstream → ℕ → Bool
is_alive_or_group_alive s a =
    (is_grouped s a && ltb 0 (s.nalive (s.group a))) || (not (is_grouped s a) && is_alive s a)

abbrev pub distance : ℕ → ℕ → ℕ
distance hash point =
    let below = (hash + (2 ^ 32 - point)) % 2 ^ 32 in
    let above = (point + (2 ^ 32 - hash)) % 2 ^ 32 in if ltb above below then above else below

-- `min_dis` and `ua`
abbrev pub Best : Type 0
Best = ℕ × Option ℕ

abbrev pub closer : ℕ → ℕ → ℕ → Best → Best
closer hash a point best =
    if ltb (distance hash point) best.0 then (distance hash point, some a) else best

unfoldable pub point_loop : ℕ → ℕ → List ℕ → Best → Best
point_loop hash a [] best = best
point_loop hash a (point ∷ points) best = point_loop hash a points (closer hash a point best)

-- __check_get_weak; the vectors are what get_one shuffles.
abbrev pub instead : ℕ → Option ℕ × Upstream → Option ℕ × Upstream
instead a (none, s') = (some a, s')
instead a (some b, s') = (some b, s')

unfoldable pub check_get_weak :
    (shuffled shuffled_slaves : List ℕ) → Option ℕ → Upstream → Option ℕ × Upstream
check_get_weak shuffled shuffled_slaves none s = (none, s)
check_get_weak shuffled shuffled_slaves (some a) s =
    if not (is_alive s a) && is_grouped s a
    then instead a (get_one (s.group a) shuffled shuffled_slaves s)
    else (some a, s)

module _ (consistent_hash : ℕ → List ℕ) where
  unfoldable pub master_loop : ℕ → Upstream → List ℕ → Best → Best
  master_loop hash s [] best = best
  master_loop hash s (a ∷ rest) best =
      master_loop hash s rest
        (if is_alive_or_group_alive s a then point_loop hash a (consistent_hash a) best else best)

  unfoldable pub closest_master : ℕ → Upstream → Best
  closest_master hash s = master_loop hash s s.all_masters (2 ^ 32 - 1, none)

  -- Upstream::consistent_hash_select; the vectors are what get_one shuffles.
  pub consistent_hash_select :
      ℕ → (shuffled shuffled_slaves : List ℕ) → Upstream → Option ℕ × Upstream
  consistent_hash_select hash shuffled shuffled_slaves s =
      check_get_weak shuffled shuffled_slaves (closest_master hash s).1 s
