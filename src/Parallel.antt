-- ===== src/Parallel.antt =====
-- Tasks and parallel tasks: workflow-step-by-step/src/kernel/SubTask.h and SubTask.cc. A task (a
-- `SubTask *`) is a positive number and its fields are functions of it. What the virtual `done` of a
-- task returns is an argument; a call of the virtual `dispatch` is noted in `dispatched`. The
-- address of an entry of the array `subtasks` is the task that has the array, with the index.
pub mod Running
pub mod Countdown
pub mod Ends
use demo_submodule.Prelude.{
  ℕ, zero, suc, ◌+◌, ◌-◌, ◌^◌, Option, none, some, List, [], ◌∷◌, ◌++◌, ◌==◌, if◌then◌else◌, update,
  set, length,
}

pub record Tasks : Type 0 where
  pub parent : ℕ → Option ℕ
  pub entry : ℕ → Option (ℕ × ℕ)
  pub subtasks : ℕ → List ℕ
  pub nleft : ℕ → ℕ
  pub dispatched : List ℕ

-- `*entry = task`
abbrev pub set_entry : Option (ℕ × ℕ) → ℕ → (ℕ → List ℕ) → ℕ → List ℕ
set_entry none task subtasks = subtasks
set_entry (some (owner, index)) task subtasks =
    update subtasks owner (set (subtasks owner) index task)

-- `if (parent) *entry = parent`
abbrev pub set_parent_entry : Option ℕ → Option (ℕ × ℕ) → (ℕ → List ℕ) → ℕ → List ℕ
set_parent_entry none entry subtasks = subtasks
set_parent_entry (some parent) entry subtasks = set_entry entry parent subtasks

-- The value that __sync_sub_and_fetch leaves in a size_t and returns.
abbrev pub sub_and_fetch : ℕ → ℕ
sub_and_fetch zero = 2 ^ 64 - 1
sub_and_fetch (suc n) = n

abbrev pub leave_parent : Option ℕ → Tasks → Option ℕ × Tasks
leave_parent none s = (none, s)
leave_parent (some parent) s = (
  if sub_and_fetch (s.nleft parent) == 0 then some parent else none,
  record s { nleft = update s.nleft parent (sub_and_fetch (s.nleft parent)) },
)

-- One round of the loop of SubTask::subtask_done, after `done` has returned: the task for which the
-- loop goes on.
pub round : (next : Option ℕ) → ℕ → Tasks → Option ℕ × Tasks
round none cur s = leave_parent (s.parent cur) s
round (some next) cur s = (
  none,
  record s {
    parent = update s.parent next (s.parent cur);
    entry = update s.entry next (s.entry cur);
    subtasks = set_parent_entry (s.parent cur) (s.entry cur) s.subtasks;
    dispatched = s.dispatched ++ next ∷ [];
  },
)

abbrev pub go_on : (ℕ → Tasks → Option Tasks) → Option ℕ × Tasks → Option Tasks
go_on again (none, s) = some s
go_on again (some cur, s) = again cur s

-- SubTask::subtask_done without other threads; `none` if the fuel runs out.
pub subtask_done : (done : ℕ → Option ℕ) → (fuel : ℕ) → (cur : ℕ) → Tasks → Option Tasks
subtask_done done zero cur s = none
subtask_done done (suc fuel) cur s = go_on (subtask_done done fuel) (round (done cur) cur s)

-- ParallelTask::dispatch
unfoldable pub open_parallel : ℕ → Tasks → Tasks
open_parallel task s = record s { nleft = update s.nleft task (length (s.subtasks task)) }

unfoldable pub start_subtask : (task index subtask : ℕ) → Tasks → Tasks
start_subtask task index subtask s = record s {
  parent = update s.parent subtask (some task);
  entry = update s.entry subtask (some (task, index));
  dispatched = s.dispatched ++ subtask ∷ [];
}

pub start_loop : (task index : ℕ) → List ℕ → Tasks → Tasks
start_loop task index [] s = s
start_loop task index (subtask ∷ rest) s =
    start_loop task (index + 1) rest (start_subtask task index subtask s)

pub dispatch : (done : ℕ → Option ℕ) → (fuel : ℕ) → (task : ℕ) → Tasks → Option Tasks
dispatch done fuel task s =
    let s' = open_parallel task s in
    if length (s.subtasks task) == 0
    then subtask_done done fuel task s'
    else some (start_loop task 0 (s.subtasks task) s')
