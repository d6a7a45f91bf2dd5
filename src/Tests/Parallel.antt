-- ===== src/Tests/Parallel.antt =====
-- A parallel task with two subtasks, of which one is at its end.
use demo_submodule.Prelude.{
  ◌≡◌, ◌↔◌, refl, false, true, none, some, [], ◌∷◌, ◌==◌, if◌then◌else◌, arith,
}
use demo_submodule.Parallel.{Tasks, round, subtask_done, open_parallel, start_subtask}
use demo_submodule.Parallel.Running.{
  Running, begun, Steps, stays, then_steps, completes, opens, starts,
}
use demo_submodule.Parallel.Countdown.{IsCounting}
use demo_submodule.Parallel.Ends.{begun-IsCounting, others, round-up, subtask_done-ends}

-- The task 1 has the subtasks 2 and 3.
abbrev two_subtasks : Tasks
two_subtasks = record {
  parent = λ _. none;
  entry = λ _. none;
  subtasks = λ t. if t == 1 then 2 ∷ 3 ∷ [] else [];
  nleft = λ _. 0;
  dispatched = [];
}

abbrev opened : Running
opened = record (begun two_subtasks 1) {
  tasks = open_parallel 1 two_subtasks;
  opened = λ t. if t == 1 then true else false;
  pending = λ t. if t == 1 then 2 ∷ 3 ∷ [] else [];
  index = λ t. if t == 1 then 0 else 0;
}

abbrev one_started : Running
one_started = record opened {
  tasks = start_subtask 1 0 2 opened.tasks;
  active = 2 ∷ 1 ∷ [];
  pending = λ t. if t == 1 then 3 ∷ [] else opened.pending t;
  index = λ t. if t == 1 then 1 else opened.index t;
}

abbrev both_started : Running
both_started = record one_started {
  tasks = start_subtask 1 1 3 one_started.tasks;
  active = 3 ∷ 2 ∷ 1 ∷ [];
  pending = λ t. if t == 1 then [] else one_started.pending t;
  index = λ t. if t == 1 then 2 else one_started.index t;
}

abbrev one_complete : Running
one_complete = record both_started { active = 3 ∷ 1 ∷ []; doing = 2 ∷ [] }

one_complete-Steps : Steps (begun two_subtasks 1) one_complete
unfolding open_parallel start_subtask
one_complete-Steps =
    then_steps (begun two_subtasks 1) opened one_complete
      (opens (begun two_subtasks 1) 1 (omega arith) refl (omega arith))
      (then_steps opened one_started one_complete (starts opened 1 2 (3 ∷ []) refl refl) (
        then_steps one_started both_started one_complete (starts one_started 1 3 [] refl refl) (
          then_steps both_started one_complete one_complete
            (completes both_started 2 (omega arith) refl) (stays one_complete))))

begun-IsCounting_example : IsCounting one_complete
begun-IsCounting_example = begun-IsCounting two_subtasks 1 one_complete refl one_complete-Steps

round-up_example : ((round none 2 one_complete.tasks).0 ≡ some 1) ↔ (others 1 2 one_complete ≡ 0)
unfolding open_parallel start_subtask
round-up_example =
    round-up one_complete 2 1 (begun-IsCounting two_subtasks 1 one_complete refl one_complete-Steps)
      (omega arith) refl

-- The task 2 is below 1.
abbrev below_one : Tasks
below_one = record two_subtasks { parent = λ t. if t == 2 then some 1 else none; nleft = λ _. 1 }

subtask_done-ends_example : (s' : Tasks) × (subtask_done (λ _. none) 2 2 below_one ≡ some s')
subtask_done-ends_example =
    subtask_done-ends (λ _. none) (λ t. if t == 2 then 1 else 0) 2 2 below_one
      (λ t p e. ground (arith, e)) (omega arith)
