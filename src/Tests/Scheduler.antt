-- ===== src/Tests/Scheduler.antt =====
-- A group of two targets, and a third target outside of it.
use demo_submodule.Prelude.{
  ℕ, zero, suc, ◌<◌, ◌≡◌, refl, true, false, Option, some, List, [], ◌∷◌, arith, ◌==◌, update, inr,
}
use demo_submodule.TargetHeap.{at, parent}
use demo_submodule.Scheduler.{Sched, Wake, less, acquire, add, remove, init, request, take_root}
use demo_submodule.Scheduler.Load.{IsLoaded}
use demo_submodule.Scheduler.Operations.{IsSched}
use demo_submodule.Scheduler.Waits.{Acquired, acquire-ends, times_out}
use demo_submodule.Scheduler.Group.{Added, add-Added, Removed, remove-Removed}
use demo_submodule.Scheduler.Steps.{group_takes, adds, stays, then_steps, init-IsSched}
use demo_submodule.Scheduler.Request.{Requests, request-Requests}

abbrev maxima : ℕ → ℕ
maxima = update (update (λ _. 1) 1 4) 2 2

abbrev loads : ℕ → ℕ
loads = update (update (λ _. 0) 1 1) 2 1

abbrev two_targets : Sched
two_targets = record {
  heap = record {
    tg_heap = 1 ∷ 2 ∷ 0 ∷ 0 ∷ [];
    index = update (λ _. 0) 2 1;
    heap_size = 2;
    heap_buf_size = 4;
  };
  self = 9;
  max_load = 6;
  cur_load = 2;
  wait_cnt = 0;
  target_max = maxima;
  target_cur = loads;
  target_wait = λ _. 0;
  group = update (update (λ _. 0) 1 9) 2 9;
  signals = 0;
  target_signals = λ _. 0;
}

maxima-IsLoaded : (t : ℕ) → IsLoaded (maxima t) (loads t)
maxima-IsLoaded t = record { some_load = ground arith; small = ground arith; within = ground arith }

two_targets-order :
    (c : ℕ)
    → 0 < c
    → c < 2
    → less two_targets (at two_targets.heap c) (at two_targets.heap (parent c)) ≡ false
unfolding less
two_targets-order zero p q = absurd (omega arith)
two_targets-order (suc zero) p q = refl
two_targets-order (suc (suc c)) p q = absurd (omega arith)

two_targets-knows : (c : ℕ) → c < 2 → two_targets.heap.index (at two_targets.heap c) ≡ c
two_targets-knows zero q = refl
two_targets-knows (suc zero) q = refl
two_targets-knows (suc (suc c)) q = absurd (omega arith)

two_targets-members : (c : ℕ) → c < 2 → two_targets.group (at two_targets.heap c) ≡ 9
two_targets-members zero q = refl
two_targets-members (suc zero) q = refl
two_targets-members (suc (suc c)) q = absurd (omega arith)

two_targets-indexed :
    (t : ℕ)
    → two_targets.group t ≡ 9
    → (two_targets.heap.index t < 2) × (at two_targets.heap (two_targets.heap.index t) ≡ t)
two_targets-indexed zero g = absurd (omega (arith, g))
two_targets-indexed (suc zero) g = (omega arith, refl)
two_targets-indexed (suc (suc zero)) g = (omega arith, refl)
two_targets-indexed (suc (suc (suc t))) g = absurd (ground arith)

two_targets-IsSched : IsSched two_targets
two_targets-IsSched = record {
  heap = record {
    order = two_targets-order;
    knows = two_targets-knows;
    room = refl;
    fits = omega arith;
    some_room = omega arith;
  };
  members = two_targets-members;
  indexed = two_targets-indexed;
  address = omega arith;
  cur = refl;
  max = refl;
  loads = maxima-IsLoaded;
  small = (omega arith, omega arith);
}

request-Requests_example :
    (t : ℕ) × (s' : Sched) × (request (λ t. t == 2) false [] two_targets
      ≡ some (t == 2, some t, s'))
    × Requests (t == 2) two_targets s' t
request-Requests_example =
    request-Requests (λ t. t == 2) false [] two_targets two_targets-IsSched (omega arith)

-- Target 5 is alone and full.
abbrev full_group : Sched
full_group = record {
  heap = record { tg_heap = 5 ∷ 0 ∷ 0 ∷ 0 ∷ []; index = λ _. 0; heap_size = 1; heap_buf_size = 4 };
  self = 9;
  max_load = 1;
  cur_load = 1;
  wait_cnt = 0;
  target_max = λ _. 1;
  target_cur = update (λ _. 0) 5 1;
  target_wait = λ _. 0;
  group = update (λ _. 0) 5 9;
  signals = 0;
  target_signals = λ _. 0;
}

full_group-at : (c : ℕ) → c < 1 → at full_group.heap c ≡ 5
full_group-at zero q = refl
full_group-at (suc c) q = absurd (omega arith)

full_group-indexed : (t : ℕ) → full_group.group t ≡ 9 → (0 < 1) × (at full_group.heap 0 ≡ t)
full_group-indexed t g = ground arith

full_group-IsSched : IsSched full_group
full_group-IsSched = record {
  heap = record {
    order = λ c p q. absurd (omega arith);
    knows = λ c q. omega arith;
    room = refl;
    fits = omega arith;
    some_room = omega arith;
  };
  members = λ c q. ground (arith, full_group-at c q);
  indexed = full_group-indexed;
  address = omega arith;
  cur = refl;
  max = refl;
  loads = λ t. record { some_load = omega arith; small = omega arith; within = ground arith };
  small = (omega arith, omega arith);
}

-- A wait that is woken for nothing, and another whose time is over.
abbrev two_wakes : List Wake
two_wakes = (0, λ s. s) ∷ (110, λ s. s) ∷ []

acquire-ends_example :
    (r : Option ℕ) × (s' : Sched) × (acquire true two_wakes full_group ≡ some (r, s'))
    × Acquired r s'
unfolding times_out
acquire-ends_example =
    acquire-ends true two_wakes full_group full_group-IsSched (λ s p. p, (λ s p. p, tt)) (inr refl)

add-Added_example : Added true 3 two_targets (add true 3 two_targets).0 (add true 3 two_targets).1
add-Added_example = add-Added true 3 two_targets two_targets-IsSched (omega arith)

remove-Removed_example : Removed 1 two_targets (remove 1 two_targets).0 (remove 1 two_targets).1
remove-Removed_example = remove-Removed 1 two_targets two_targets-IsSched

-- A group that is still to be made, and what adding a target and taking it make of it.
abbrev no_targets : Sched
no_targets = record two_targets { group = λ _. 0; target_cur = λ _. 0 }

abbrev made : Sched
made = (init (some (0 ∷ 0 ∷ 0 ∷ 0 ∷ [])) 0 0 no_targets).1

init-IsSched_example : IsSched (take_root 0 (add true 2 made).1).1
unfolding init
init-IsSched_example =
    init-IsSched (0 ∷ 0 ∷ 0 ∷ 0 ∷ []) no_targets (take_root 0 (add true 2 made).1).1 refl
      (record {
        loads =
            λ t. record { some_load = ground arith; small = ground arith; within = omega arith };
        address = omega arith;
        empty = λ t g. absurd (omega (arith, g));
      })
      (then_steps made (add true 2 made).1 _ (adds true 2 made (omega arith))
        (then_steps (add true 2 made).1 _ _ (group_takes 0 (add true 2 made).1) (stays _)))
