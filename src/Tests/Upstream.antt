-- ===== src/Tests/Upstream.antt =====
-- An upstream with a master of the default group, and an address of the group 0.
use demo_submodule.Prelude.{
  false, count, ℕ, List, ◌*◌, ◌%◌, ◌^◌, ◌<◌, ◌≤◌, ◌≡◌, refl, true, Option, none, some, [], ◌∷◌,
  arith, ◌==◌, if◌then◌else◌,
}
use demo_submodule.Upstream.{
  Upstream, is_alive, create, add, gain_one_server, lose_one_server, disable_server, disable_loop,
  disable, break_down, check_one_breaker, get_one,
}
use demo_submodule.Upstream.Healthy.{IsHealthy}
use demo_submodule.Upstream.Members.{IsFresh}
use demo_submodule.Upstream.Choice.{Picks, get_one-Picks}
use demo_submodule.Upstream.Steps.{adds, disables, Steps, stays, then_steps, create-IsHealthy}
use demo_submodule.Upstream.Select.{closest_master}
use demo_submodule.Upstream.Select.Closest.{IsClosest, closest_master-IsClosest}
use demo_submodule.Upstream.Get.{Choice, get}
use demo_submodule.Upstream.Get.Alive.{IsAnswer}
use demo_submodule.Upstream.Get.Answers.{get-IsAnswer}
use demo_submodule.Upstream.Recovery.{check_one_breaker-recovers}

abbrev group_ids : ℕ → Option ℕ
group_ids a = if a == 5 then some 0 else none

abbrev opened : Upstream
opened = create (λ a. a) group_ids (λ _. true) (λ _. 0) (λ _. 2)

abbrev one_master : Upstream
one_master = add 3 opened

abbrev disabled : Upstream
disabled = disable_server 100 3 one_master

opened-IsFresh : IsFresh opened 3
unfolding create
opened-IsFresh = record {
  no_group = refl;
  no_fails = refl;
  no_breaker = refl;
  nowhere = λ g. refl;
  params = omega arith;
}

one_master-Steps : Steps opened one_master
one_master-Steps =
    then_steps opened one_master one_master (adds 3 opened opened-IsFresh) (stays one_master)

disabled-Steps : Steps opened disabled
disabled-Steps =
    then_steps opened one_master disabled (adds 3 opened opened-IsFresh)
      (then_steps one_master disabled disabled (disables 100 3 one_master) (stays disabled))

create-IsHealthy_example : IsHealthy disabled
create-IsHealthy_example =
    create-IsHealthy (λ a. a) group_ids (λ _. true) (λ _. 0) (λ _. 2) disabled disabled-Steps

one_master-IsHealthy : IsHealthy one_master
one_master-IsHealthy =
    create-IsHealthy (λ a. a) group_ids (λ _. true) (λ _. 0) (λ _. 2) one_master one_master-Steps

get_one-Picks_example : Picks 1 one_master (get_one 1 (3 ∷ []) [] one_master).0
unfolding create add gain_one_server
get_one-Picks_example =
    get_one-Picks 1 (3 ∷ []) [] one_master one_master-IsHealthy (omega arith) (λ x. refl)
      (λ x. refl)

check_one_breaker-recovers_example :
    ((x : ℕ)
      → 0 < count x (disabled.breaker_list 1)
      → disabled.broken_timeout x ≤ 130
      → is_alive (check_one_breaker 1 130 disabled) x ≡ true)
    × ((x : ℕ) → is_alive disabled x ≡ true → is_alive (check_one_breaker 1 130 disabled) x ≡ true)
unfolding create add gain_one_server lose_one_server disable_server disable_loop disable break_down
check_one_breaker-recovers_example =
    check_one_breaker-recovers 1 130 disabled
      (create-IsHealthy (λ a. a) group_ids (λ _. true) (λ _. 0) (λ _. 2) disabled disabled-Steps)
      (omega arith)

abbrev hashes : ℕ → List ℕ
hashes a = (a * 1000) % 2 ^ 32 ∷ []

hashes_small : (a p : ℕ) → 0 < count p (hashes a) → p < 2 ^ 32
hashes_small a p k = ground arith

closest_master-IsClosest_example :
    IsClosest hashes 2999 one_master (closest_master hashes 2999 one_master).1
closest_master-IsClosest_example =
    closest_master-IsClosest hashes 2999 one_master (omega arith) hashes_small
      (λ a. ((a * 1000) % 2 ^ 32, ground arith))

-- The weights decide, and another master is tried.
abbrev by_weight : Choice
by_weight = record {
  is_consistent = false;
  try_another = true;
  hash = 0;
  select = none;
  random = 5;
  random_another = 0;
}

get-IsAnswer_example : IsAnswer (get (λ xs. xs) (λ _. []) by_weight (1 ∷ []) 130 disabled)
unfolding create add gain_one_server lose_one_server disable_server disable_loop disable break_down
get-IsAnswer_example =
    get-IsAnswer (λ xs. xs) (λ xs x. refl) (λ _. []) by_weight (1 ∷ []) 130 disabled
      (create-IsHealthy (λ a. a) group_ids (λ _. true) (λ _. 0) (λ _. 2) disabled disabled-Steps)
      (λ a p e. ground (arith, p, e))
