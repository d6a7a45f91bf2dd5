-- ===== src/Scheduler.antt =====
-- CommSchedGroup and CommSchedTarget of workflow-step-by-step/src/kernel/CommScheduler.h and
-- CommScheduler.cc: a group of targets that gives out its least loaded target. A target is a
-- number, its fields are functions of it, and `group` is 0 for NULL. The record is one group,
-- whose address is `self`; an operation on a target of another group belongs to that group's
-- record. Loads are far below 2^64, so their sums do not wrap round; what is taken off a load is
-- written out. A wait takes off its own count, so no count of waiters gets below 0. A mutex is held from
-- the first access to the last, except in a wait.
pub mod Load
pub mod Root
pub mod Operations
pub mod Runs
pub mod Waits
pub mod Target
pub mod Group
pub mod Steps
pub mod Request
use demo_submodule.Prelude.{
  ℕ, zero, suc, ◌+◌, ◌-◌, ◌*◌, ◌%◌, Bool, true, false, ◌&&◌, Option, none, some, List, [], ◌∷◌, ltb,
  leb, ◌==◌, not, if◌then◌else◌, update,
}
use demo_submodule.Cstring.{size_mod}
use demo_submodule.TargetHeap.{TargetHeap, at, heap_adjust, heapify, heap_insert, heap_remove}

pub record Sched : Type 0 where
  pub heap : TargetHeap
  pub self : ℕ
  pub max_load : ℕ
  pub cur_load : ℕ
  pub wait_cnt : ℕ
  -- the targets' fields
  pub target_max : ℕ → ℕ
  pub target_cur : ℕ → ℕ
  pub target_wait : ℕ → ℕ
  pub group : ℕ → ℕ
  -- how often each condition variable was signalled
  pub signals : ℕ
  pub target_signals : ℕ → ℕ

-- target_cmp(a, b) < 0
unfoldable pub less : Sched → ℕ → ℕ → Bool
less s a b =
    ltb ((s.target_cur a * s.target_max b) % size_mod)
      ((s.target_cur b * s.target_max a) % size_mod)

abbrev pub decrement : ℕ → ℕ
decrement n = (n + size_mod - 1) % size_mod

abbrev pub subtract : ℕ → ℕ → ℕ
subtract m n = (m + (size_mod - n)) % size_mod

-- A wait on a condition variable ends with a value, after others have changed the state.
abbrev pub Wake : Type 0
Wake = ℕ × (Sched → Sched)

abbrev pub eagain : ℕ
eagain = 11

-- The do-while loop around the wait; `none` if it is never woken again.
pub wait_loop :
    (full : Sched → Bool) (enter leave : Sched → Sched) → List Wake → Sched → Option (ℕ × Sched)
wait_loop full enter leave [] s = none
wait_loop full enter leave ((ret, others) ∷ wakes) s =
    let s' = leave (others (enter s)) in
    let again = wait_loop full enter leave wakes s' in
    if full s' && (ret == 0) then again else some (ret, s')

-- `if (cur_load >= max_load)`: the value of `ret` and the state behind it.
pub wait_for_room :
    (full : Sched → Bool) (enter leave : Sched → Sched)
    → (waits : Bool) → List Wake
    → Sched
    → Option (ℕ × Sched)
wait_for_room full enter leave waits wakes s =
    if full s
    then (if waits then wait_loop full enter leave wakes s else some (eagain, s))
    else some (0, s)

-- CommSchedGroup::init, or the value of `errno`: the outcomes of `malloc`, with what it leaves in
-- the array, and of the two initialisations. `none` stands for an `errno` that `malloc` set.
unfoldable pub init :
    (array : Option (List ℕ)) → (mutex_ret cond_ret : ℕ) → Sched → (Option ℕ × Sched)
init none mutex_ret cond_ret s = (none, s)
init (some tg_heap) mutex_ret cond_ret s =
    if mutex_ret == 0
    then (if cond_ret == 0
        then (
          some 0,
          record s {
            heap = record {
              tg_heap = tg_heap;
              index = s.heap.index;
              heap_size = 0;
              heap_buf_size = 4;
            };
            max_load = 0;
            cur_load = 0;
            wait_cnt = 0;
          },
        )
        else (some cond_ret, s))
    else (some mutex_ret, s)

-- The group's `acquire`: the loads of the target and of the group.
abbrev pub is_full : Sched → Bool
is_full s = leb s.max_load s.cur_load

abbrev pub charge : ℕ → Sched → Sched
charge t s = record s { target_cur = update s.target_cur t (s.target_cur t + 1) }

abbrev pub charge_group : Sched → Sched
charge_group s = record s { cur_load = s.cur_load + 1 }

-- heapify(index), in the order that the new loads give.
abbrev pub sink : ℕ → Sched → Sched
sink index s = record s { heap = heapify (less s) index s.heap }

-- What follows the wait: the return value, the target or NULL, and the state.
pub take_root : ℕ → Sched → Option ℕ × Sched
take_root ret s =
    if not (is_full s)
    then (let t = at s.heap 0 in (some t, sink 0 (charge_group (charge t s))))
    else (none, s)

abbrev pub then_take :
    (ℕ → Sched → Option ℕ × Sched) → Option (ℕ × Sched) → Option (Option ℕ × Sched)
then_take take none = none
then_take take (some (ret, s)) = some (take ret s)

abbrev pub enter_group : Sched → Sched
enter_group s = record s { wait_cnt = s.wait_cnt + 1 }

abbrev pub leave_group : Sched → Sched
leave_group s = record s { wait_cnt = s.wait_cnt - 1 }

-- CommSchedGroup::acquire; `waits` is `wait_timeout != 0`.
pub acquire : (waits : Bool) → List Wake → Sched → Option (Option ℕ × Sched)
acquire waits wakes s =
    then_take take_root (wait_for_room is_full enter_group leave_group waits wakes s)

abbrev pub is_target_full : ℕ → Sched → Bool
is_target_full t s = leb (s.target_max t) (s.target_cur t)

abbrev pub enter_target : ℕ → Sched → Sched
enter_target t s = record s { target_wait = update s.target_wait t (s.target_wait t + 1) }

abbrev pub leave_target : ℕ → Sched → Sched
leave_target t s = record s { target_wait = update s.target_wait t (s.target_wait t - 1) }

pub take_target : ℕ → ℕ → Sched → Option ℕ × Sched
take_target t ret s =
    if not (is_target_full t s)
    then (
      some t,
      if s.group t == 0 then charge t s else sink (s.heap.index t) (charge_group (charge t s)),
    )
    else (none, s)

-- CommSchedTarget::acquire
pub acquire_target : ℕ → (waits : Bool) → List Wake → Sched → Option (Option ℕ × Sched)
acquire_target t waits wakes s =
    then_take (take_target t)
      (wait_for_room (is_target_full t) (enter_target t) (leave_target t) waits wakes s)

-- CommSchedTarget::release
abbrev pub discharge : ℕ → Sched → Sched
discharge t s = record s { target_cur = update s.target_cur t (decrement (s.target_cur t)) }

abbrev pub signal_target : ℕ → Sched → Sched
signal_target t s = record s {
  target_signals =
      if ltb 0 (s.target_wait t)
      then update s.target_signals t (s.target_signals t + 1)
      else s.target_signals;
}

abbrev pub discharge_group : ℕ → Sched → Sched
discharge_group t s = record s {
  cur_load = decrement s.cur_load;
  signals = if (s.target_wait t == 0) && ltb 0 s.wait_cnt then s.signals + 1 else s.signals;
}

abbrev pub rise : ℕ → Sched → Sched
rise index s = record s { heap = heap_adjust (less s) index s.heap }

pub release : ℕ → Sched → Sched
release t s =
    let s' = signal_target t (discharge t s) in
    if s.group t == 0 then s' else rise (s.heap.index t) (discharge_group t s')

-- What `add` and `remove` return: 0, or -1 with the error.
pub data Outcome : Type 0 where
  done no_memory exists invalid busy no_entry : Outcome

abbrev pub admit : ℕ → TargetHeap → Sched → Sched
admit t heap s =
    let cur_load = s.cur_load + s.target_cur t in
    let max_load = s.max_load + s.target_max t in
    record s {
      heap = heap;
      group = update s.group t s.self;
      max_load = max_load;
      cur_load = cur_load;
      signals = if ltb 0 s.wait_cnt && ltb cur_load max_load then s.signals + 1 else s.signals;
    }

pub admit_if : ℕ → Option TargetHeap → Sched → Outcome × Sched
admit_if t none s = (no_memory, s)
admit_if t (some heap) s = (done, admit t heap s)

-- CommSchedGroup::add; `granted` is the outcome of a `realloc`.
pub add : Bool → ℕ → Sched → Outcome × Sched
add granted t s =
    if (s.group t == 0) && (s.target_wait t == 0)
    then admit_if t (heap_insert (less s) granted t s.heap) s
    else if s.group t == s.self
    then (exists, s)
    else if not (s.group t == 0)
    then (invalid, s)
    else (busy, s)

-- CommSchedGroup::remove
pub remove : ℕ → Sched → Outcome × Sched
remove t s =
    if (s.group t == s.self) && (s.target_wait t == 0)
    then (
      done,
      record s {
        heap = heap_remove (less s) (s.heap.index t) s.heap;
        max_load = subtract s.max_load (s.target_max t);
        cur_load = subtract s.cur_load (s.target_cur t);
        group = update s.group t 0;
      },
    )
    else if not (s.group t == s.self)
    then (no_entry, s)
    else (busy, s)

pub settle : (accepted : ℕ → Bool) → Option ℕ → Sched → Option (Bool × Option ℕ × Sched)
settle accepted none s = some (false, none, s)
settle accepted (some t) s =
    if accepted t then some (true, some t, s) else some (false, some t, release t s)

abbrev pub then_settle :
    (accepted : ℕ → Bool) → Option (Option ℕ × Sched) → Option (Bool × Option ℕ × Sched)
then_settle accepted none = none
then_settle accepted (some (target, s)) = settle accepted target s

-- CommScheduler::request of a group, or `none` if acquire does not return: whether it succeeded,
-- `*target`, and the state. `accepted` says of which targets the communicator takes the request.
pub request :
    (accepted : ℕ → Bool) → (waits : Bool) → List Wake → Sched → Option (Bool × Option ℕ × Sched)
request accepted waits wakes s = then_settle accepted (acquire waits wakes s)
