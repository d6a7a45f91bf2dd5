-- ===== src/Tests/Executor.antt =====
-- Two sessions, of which a thread has taken one.
use demo_submodule.Prelude.{◌≡◌, true, some, [], ◌∷◌, length}
use demo_submodule.Executor.{ExecQueue, create, request, enqueue}
use demo_submodule.Executor.Orderly.{Run, opens, requests, IsOrderly, Run-IsOrderly}
use demo_submodule.Executor.Drain.{work, Drained, work-Drained}

abbrev opened : ExecQueue
opened = create 9 (λ _. 0)

abbrev one_waits : ExecQueue
one_waits = (request true true 5 opened).1

abbrev two_wait : ExecQueue
two_wait = (request true true 6 one_waits).1

two_wait-Run : Run (5 ∷ 6 ∷ []) [] two_wait
unfolding request enqueue
two_wait-Run =
    requests (5 ∷ []) [] one_waits true true 6
      (requests [] [] opened true true 5 (opens 9 (λ _. 0)))

Run-IsOrderly_example : IsOrderly (5 ∷ 6 ∷ []) [] two_wait
Run-IsOrderly_example = Run-IsOrderly (5 ∷ 6 ∷ []) [] two_wait two_wait-Run

work-Drained_example :
    (q' : ExecQueue) × (work (length two_wait.task_list) two_wait ≡ some q')
    × Drained (5 ∷ 6 ∷ []) [] two_wait.task_list two_wait q'
work-Drained_example = work-Drained (5 ∷ 6 ∷ []) [] two_wait two_wait-Run
