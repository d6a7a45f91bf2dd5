-- ===== src/Executor.antt =====
-- ExecQueue and Executor of workflow-step-by-step/src/kernel/Executor.h and Executor.cc: a queue of
-- sessions, of which the thread pool runs one routine at a time. A session (an `ExecSession *`) is
-- a number. The record is one queue, with what the pool has of it: `scheduled` counts the tasks of
-- the pool whose context is the queue. Whether an entry is allocated and whether the pool takes a
-- task are arguments. A mutex makes a step of what is done while it is held.
pub mod Orderly
pub mod Drain
use demo_submodule.Prelude.{
  ℕ, ◌+◌, ◌-◌, Bool, true, false, Option, none, some, List, [], ◌∷◌, ◌++◌, ◌==◌, if◌then◌else◌,
  update, is_empty, erase,
}

pub data ExecState : Type 0 where
  finished error canceled : ExecState

pub record ExecQueue : Type 0 where
  pub self : ℕ
  -- the sessions of its entries
  pub task_list : List ℕ
  -- the field `queue` of a session
  pub queue : ℕ → ℕ
  pub scheduled : ℕ
  -- the sessions that threads have taken and not yet handled
  pub running : List ℕ
  -- the calls of `handle`
  pub handled : List (ℕ × ExecState)

-- ExecQueue::init, when its mutex can be made.
abbrev pub create : ℕ → (ℕ → ℕ) → ExecQueue
create self queue = record {
  self = self;
  task_list = [];
  queue = queue;
  scheduled = 0;
  running = [];
  handled = [];
}

-- list_add_tail, and a task of the pool if the entry is the first; it leaves the list again if
-- thrdpool_schedule fails.
unfoldable pub enqueue : (schedules : Bool) → ℕ → ExecQueue → ℕ × ExecQueue
enqueue schedules session q =
    if is_empty q.task_list
    then (if schedules
        then (0, record q { task_list = session ∷ []; scheduled = q.scheduled + 1 })
        else (1, q))
    else (0, record q { task_list = q.task_list ++ session ∷ [] })

-- Executor::request; 1 stands for the return value -1.
unfoldable pub request : (allocates schedules : Bool) → ℕ → ExecQueue → ℕ × ExecQueue
request allocates schedules session q =
    let q' = record q { queue = update q.queue session q.self } in
    if allocates then enqueue schedules session q' else (1, q')

-- The first entry leaves the list; its memory serves for the next task of the pool, if there is
-- another entry.
pub take_entry : List ℕ → ExecQueue → Option (ℕ × ExecQueue)
take_entry [] q = none
take_entry (session ∷ rest) q = some (
  session,
  record q {
    task_list = rest;
    scheduled = if is_empty rest then q.scheduled else q.scheduled + 1;
    running = q.running ++ session ∷ [];
  },
)

-- Executor::executor_thread_routine up to the unlock, and the session that it goes on with. The
-- list must not be empty.
pub executor_thread_routine : ExecQueue → Option (ℕ × ExecQueue)
executor_thread_routine q = take_entry q.task_list q

-- What follows: the session is executed and handled.
pub handle_session : ℕ → ExecQueue → ExecQueue
handle_session session q = record q {
  running = erase session q.running;
  handled = q.handled ++ (session, finished) ∷ [];
}

-- Executor::executor_cancel_tasks
pub cancel_loop : List ℕ → ExecQueue → ExecQueue
cancel_loop [] q = q
cancel_loop (session ∷ rest) q =
    cancel_loop rest
      (record q { task_list = rest; handled = q.handled ++ (session, canceled) ∷ [] })

pub executor_cancel_tasks : ExecQueue → ExecQueue
executor_cancel_tasks q = cancel_loop q.task_list q

-- The thread pool takes a task off its own queue, to run it or to cancel it. This is no code of the
-- executor: it counts what kernel/thrdpool.c has of the queue.
abbrev pub take_task : ExecQueue → ExecQueue
take_task q = record q { scheduled = q.scheduled - 1 }
