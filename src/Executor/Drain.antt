-- ===== src/Executor/Drain.antt =====
-- The threads of the pool take every session that waits.
use mathlib.Core.Path.{subst}
use demo_submodule.Prelude.{
  ℕ, zero, suc, ◌+◌, ◌-◌, ◌≡◌, refl, sym, ap, ◌∙◌, true, Option, none, some, List, [], ◌∷◌, ◌++◌,
  append-nil, append_assoc, ltb, if◌then◌else◌, is_empty, arith, length,
}
use demo_submodule.Executor.{ExecQueue, take_entry, executor_thread_routine, take_task}
use demo_submodule.Executor.Orderly.{Run, starts, Run-IsOrderly}

abbrev forget : Option (ℕ × ExecQueue) → Option ExecQueue
forget none = none
forget (some (session, q)) = some q

abbrev then_work : (ExecQueue → Option ExecQueue) → Option ExecQueue → Option ExecQueue
then_work f none = none
then_work f (some q) = f q

-- Threads of the pool start as many tasks of the queue; `none` if the pool has none, or if one finds
-- no session.
pub work : ℕ → ExecQueue → Option ExecQueue
work zero q = some q
work (suc n) q =
    let rest = then_work (work n) (forget (executor_thread_routine (take_task q))) in
    if ltb 0 q.scheduled then rest else none

-- What `q'` is when the sessions `waiting` have left `q`.
pub record Drained (accepted taken waiting : List ℕ) (q q' : ExecQueue) : Type 0 where
  pub run : Run accepted (taken ++ waiting) q'
  pub empty : q'.task_list ≡ []
  pub no_task : q'.scheduled ≡ 0
  pub running : q'.running ≡ q.running ++ waiting

drains :
    (accepted taken waiting : List ℕ) (q : ExecQueue)
    → Run accepted taken q
    → q.task_list ≡ waiting
    → (q' : ExecQueue) × (work (length waiting) q ≡ some q') × Drained accepted taken waiting q q'
unfolding work executor_thread_routine take_entry
drains accepted taken [] q run w = (
  q,
  refl,
  record {
    run = subst (λ (l : List ℕ). Run accepted l q) (sym (append-nil taken)) run;
    empty = w;
    no_task =
        (Run-IsOrderly accepted taken q run).one_task
        ∙ ap (λ (l : List ℕ). if is_empty l then 0 else 1) w;
    running = sym (append-nil q.running);
  },
)
drains accepted taken (session ∷ rest) q run w =
    let one : q.scheduled ≡ 1 =
      (Run-IsOrderly accepted taken q run).one_task
      ∙ ap (λ (l : List ℕ). if is_empty l then 0 else 1) w in
    let next : ExecQueue = record (take_task q) {
      task_list = rest;
      scheduled = if is_empty rest then q.scheduled - 1 else q.scheduled - 1 + 1;
      running = q.running ++ session ∷ [];
    } in
    let e : executor_thread_routine (take_task q) ≡ some (session, next) =
      ap (λ (l : List ℕ). take_entry l (take_task q)) w in
    let run' = starts accepted taken q next session run (omega (arith, one)) e in
    let (q', f, d) = drains accepted (taken ++ session ∷ []) rest next run' refl in
    let some_task : ltb 0 q.scheduled ≡ true = ground (arith, one) in
    (
      q',
      rw (some_task, e) f,
      record {
        run =
            subst (λ (l : List ℕ). Run accepted l q') (append_assoc taken (session ∷ []) rest)
              d.run;
        empty = d.empty;
        no_task = d.no_task;
        running = d.running ∙ append_assoc q.running (session ∷ []) rest;
      },
    )

-- In whatever order the queue was used, the pool has a task for the sessions that wait: threads that
-- start as many tasks of the queue as there are sessions find one each, in the order in which they
-- came, and leave the list empty and the pool without a task.
pub work-Drained :
    (accepted taken : List ℕ) (q : ExecQueue)
    → Run accepted taken q
    → (q' : ExecQueue) × (work (length q.task_list) q ≡ some q')
      × Drained accepted taken q.task_list q q'
work-Drained accepted taken q run = drains accepted taken q.task_list q run refl
