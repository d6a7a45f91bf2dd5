-- ===== src/Scheduler/Steps.antt =====
-- The states of a group: what runs of its operations, in any order, make of a fresh one.
use demo_submodule.Prelude.{ℕ, ◌+◌, ◌<◌, ◌≡◌, ◌≢◌, refl, Bool, some, List, arith, length}
use demo_submodule.Cstring.{size_mod}
use demo_submodule.Scheduler.{
  Sched, less, init, enter_group, leave_group, take_root, enter_target, leave_target, take_target,
  release, add, remove,
}
use demo_submodule.Scheduler.Load.{IsLoaded}
use demo_submodule.Scheduler.Operations.{IsSched}
use demo_submodule.Scheduler.Waits.{
  Acquired-IsSched, take_root-Acquired, enter_group-IsSched, leave_group-IsSched,
}
use demo_submodule.Scheduler.Target.{
  Near, AcquiredTarget-IsSched, take_target-AcquiredTarget, enter_target-IsSched,
  leave_target-IsSched, release-Releases,
}
use demo_submodule.Scheduler.Group.{Added-IsSched, add-Added, Removed-IsSched, remove-Removed}

-- What a thread does while it holds the mutex: one part of an acquire, up to its wait or behind it,
-- or another operation.
pub data Step : Sched → Sched → Type 0 where
  group_waits : (s : Sched) → Step s (enter_group s)
  group_wakes : (s : Sched) → Step s (leave_group s)
  group_takes : (ret : ℕ) (s : Sched) → Step s (take_root ret s).1
  target_waits : (t : ℕ) (s : Sched) → Step s (enter_target t s)
  target_wakes : (t : ℕ) (s : Sched) → Step s (leave_target t s)
  target_takes : (t ret : ℕ) (s : Sched) → Near t s → Step s (take_target t ret s).1
  releases : (t : ℕ) (s : Sched) → Near t s → 0 < s.target_cur t → Step s (release t s)
  adds :
      (granted : Bool) (t : ℕ) (s : Sched)
      → s.max_load + s.target_max t < size_mod
      → Step s (add granted t s).1
  removes : (t : ℕ) (s : Sched) → Step s (remove t s).1

pub data Steps : Sched → Sched → Type 0 where
  stays : (s : Sched) → Steps s s
  then_steps : (s u w : Sched) → Step s u → Steps u w → Steps s w

Step-IsSched : (s u : Sched) → Step s u → IsSched s → IsSched u
Step-IsSched _ _ (group_waits s) v = enter_group-IsSched s v
Step-IsSched _ _ (group_wakes s) v = leave_group-IsSched s v
Step-IsSched _ _ (group_takes ret s) v = Acquired-IsSched _ _ (take_root-Acquired ret s v)
Step-IsSched _ _ (target_waits t s) v = enter_target-IsSched t s v
Step-IsSched _ _ (target_wakes t s) v = leave_target-IsSched t s v
Step-IsSched _ _ (target_takes t ret s near) v =
    AcquiredTarget-IsSched t _ _ (take_target-AcquiredTarget t ret s (v, near))
Step-IsSched _ _ (releases t s near pos) v = (release-Releases t s v near pos).valid
Step-IsSched _ _ (adds granted t s fits) v =
    Added-IsSched granted t s v _ _ (add-Added granted t s v fits)
Step-IsSched _ _ (removes t s) v = Removed-IsSched t s v _ _ (remove-Removed t s v)

-- Steps of any number of threads, in any order, keep a group valid.
pub Steps-IsSched : (s u : Sched) → Steps s u → IsSched s → IsSched u
Steps-IsSched _ _ (stays s) v = v
Steps-IsSched _ _ (then_steps s u w first rest) v =
    Steps-IsSched u w rest (Step-IsSched s u first v)

-- A group that no target is in yet.
pub record IsFresh (s : Sched) : Type 0 where
  pub loads : (t : ℕ) → IsLoaded (s.target_max t) (s.target_cur t)
  pub address : s.self ≢ 0
  pub empty : (t : ℕ) → s.group t ≢ s.self

-- A group that `init` made, with no target in it, is valid after any steps of any threads.
pub init-IsSched :
    (tg_heap : List ℕ) (s u : Sched)
    → length tg_heap ≡ 4
    → IsFresh s
    → Steps (init (some tg_heap) 0 0 s).1 u
    → IsSched u
unfolding init less
init-IsSched tg_heap s u l f steps = Steps-IsSched _ u steps (record {
  heap = record {
    order = λ c p q. absurd (omega arith);
    knows = λ c q. absurd (omega arith);
    room = l;
    fits = omega arith;
    some_room = omega arith;
  };
  members = λ c q. absurd (omega arith);
  indexed = λ t g. absurd (f.empty t g);
  address = f.address;
  cur = refl;
  max = refl;
  loads = f.loads;
  small = (omega arith, omega arith);
})
