-- ===== src/Series.antt =====
-- SeriesWork of workflow-step-by-step/src/factory/Workflow.h and Workflow.cc: the queue of the
-- tasks that a series has still to run, a ring in an array that doubles when it is full.
-- A task (a `SubTask *`) is a positive number and 0 is NULL. The mutex makes each operation atomic.
pub mod Window
pub mod Expand
pub mod Deque
pub mod Spec
pub mod Cancel
use demo_submodule.Prelude.{
  ℕ, zero, suc, ◌+◌, ◌-◌, ◌*◌, Bool, true, false, List, [], ◌∷◌, ◌++◌, ◌==◌, if◌then◌else◌, not,
  ◌||◌, length, get_or, set, replicate,
}

pub record SeriesWork : Type 0 where
  pub first : ℕ
  pub last : ℕ
  pub queue : List ℕ
  pub queue_size : ℕ
  pub front : ℕ
  pub back : ℕ
  pub in_parallel : Bool
  pub canceled : Bool
  -- what the series has done to its surroundings: whether its callback is set, how often it was
  -- called, whether the series was deleted, and the tasks that it deleted
  pub callback : Bool
  pub called : ℕ
  pub deleted : Bool
  pub deleted_tasks : List ℕ

-- The constructor. The fresh array holds whatever `new SubTask *[4]` holds.
pub create : ℕ → Bool → (fresh : List ℕ) → SeriesWork
create first callback fresh = record {
  first = first;
  last = 0;
  queue = fresh;
  queue_size = 4;
  front = 0;
  back = 0;
  in_parallel = false;
  canceled = false;
  callback = callback;
  called = 0;
  deleted = false;
  deleted_tasks = [];
}

pub set_last_task : ℕ → SeriesWork → SeriesWork
set_last_task last s = record s { last = last }

pub cancel : SeriesWork → SeriesWork
cancel s = record s { canceled = true }

-- `if (++i == queue_size) i = 0`
abbrev pub next : ℕ → ℕ → ℕ
next size i = if i + 1 == size then 0 else i + 1

-- `if (--i == -1) i = queue_size - 1`
abbrev pub prev : ℕ → ℕ → ℕ
prev size i = if i == 0 then size - 1 else i - 1

-- The do-while loop of `expand_queue`; the fuel bounds its rounds.
pub copy_loop : ℕ → List ℕ → ℕ → ℕ → ℕ → List ℕ → List ℕ
copy_loop zero queue size back j out = out
copy_loop (suc fuel) queue size back j out =
    let out' = out ++ get_or queue j 0 ∷ [] in
    let rest = copy_loop fuel queue size back (next size j) out' in
    if next size j == back then out' else rest

-- The new array: what the loop copied, and behind it what the fresh array holds.
pub expand_queue : SeriesWork → SeriesWork
expand_queue s =
    let copied = copy_loop s.queue_size s.queue s.queue_size s.back s.front [] in
    record s {
      queue = copied ++ replicate (2 * s.queue_size - length copied) 0;
      queue_size = 2 * s.queue_size;
      front = 0;
      back = length copied;
    }

-- `if (front == back) expand_queue()`
pub expand_if_full : SeriesWork → SeriesWork
expand_if_full s = if s.front == s.back then expand_queue s else s

pub push_front : ℕ → SeriesWork → SeriesWork
push_front task s =
    let front = prev s.queue_size s.front in
    expand_if_full (record s { front = front; queue = set s.queue front task })

pub push_back : ℕ → SeriesWork → SeriesWork
push_back task s =
    expand_if_full (record s { queue = set s.queue s.back task; back = next s.queue_size s.back })

-- What follows the critical section of `pop_task` when there is no task left.
pub finish : SeriesWork → SeriesWork
finish s = record s {
  called = if s.callback then s.called + 1 else s.called;
  deleted = not s.in_parallel || s.deleted;
}

-- After the lock is released: a series without a next task ends.
pub settle : ℕ → SeriesWork → ℕ × SeriesWork
settle task s = (task, if task == 0 then finish s else s)

pub pop_task : SeriesWork → ℕ × SeriesWork
pop_task s =
    if s.front == s.back
    then settle s.last (record s { last = 0 })
    else settle (get_or s.queue s.front 0) (record s { front = next s.queue_size s.front })

-- `while (task) { delete task; task = pop_task(); }`
pub delete_loop : ℕ → ℕ → SeriesWork → SeriesWork
delete_loop zero task s = s
delete_loop (suc fuel) task s =
    let (task', s') = pop_task (record s { deleted_tasks = s.deleted_tasks ++ task ∷ [] }) in
    let rest = delete_loop fuel task' s' in if task == 0 then s else rest

-- The tasks that the loops may still have to delete: those of the queue, and `last`.
abbrev pub drain_fuel : SeriesWork → ℕ
drain_fuel s = s.queue_size + 2

pub pop : SeriesWork → ℕ × SeriesWork
pop s =
    let (task, s') = pop_task s in
    if not s.canceled then (task, s') else (0, delete_loop (drain_fuel s) task s')

-- `do { delete task; task = pop_task(); } while (task)`, from the first task.
pub dismiss_recursive : SeriesWork → SeriesWork
dismiss_recursive s =
    let s' = record s { in_parallel = false; callback = false } in
    delete_loop (drain_fuel s) s.first s'
