-- ===== src/Scheduler/Runs.antt =====
-- What acquire and release of a group and of a target come to.
use mathlib.Core.Path.{subst}
use demo_submodule.Prelude.{
  ℕ, ◌+◌, ◌<◌, ◌≡◌, refl, ap, Bool, false, some, List, arith, ◌==◌, if◌then◌else◌,
}
use demo_submodule.TargetHeap.{at}
use demo_submodule.Scheduler.{
  Sched, Wake, charge, charge_group, sink, is_full, take_root, wait_for_room, acquire,
}
use demo_submodule.Scheduler.Load.{NoMore}
use demo_submodule.Scheduler.Root.{root-NoMore, root-room}
use demo_submodule.Scheduler.Operations.{IsSched, charged-IsSched}

-- From `s` to `s'` the target `t` of the group was charged: one load, which it had room for, when
-- no target of the group was loaded less in proportion.
pub record Takes (s s' : Sched) (t : ℕ) : Type 0 where
  pub member : s.group t ≡ s.self
  pub room : s.target_cur t < s.target_max t
  pub least : (u : ℕ) → s.group u ≡ s.self → NoMore s t u
  pub charged : (u : ℕ) → s'.target_cur u ≡ (if u == t then s.target_cur t + 1 else s.target_cur u)
  pub group_load : s'.cur_load ≡ s.cur_load + 1
  pub groups : (s'.group ≡ s.group) × (s'.self ≡ s.self)
  pub valid : IsSched s'

pub take_root-Takes :
    (ret : ℕ) (s : Sched)
    → IsSched s
    → s.cur_load < s.max_load
    → (t : ℕ) × (s' : Sched) × (take_root ret s ≡ (some t, s')) × Takes s s' t
unfolding take_root
take_root-Takes ret s v l =
    let not_full : is_full s ≡ false = ground arith in
    let (some_target, room) =
      root-room s v.loads s.heap.heap_size v.heap.order (omega (arith, v.cur, v.max)) in
    (
      at s.heap 0,
      sink 0 (charge_group (charge (at s.heap 0) s)),
      simp not_full refl,
      record {
        member = v.members 0 some_target;
        room = room;
        least = λ u g.
            let (lu, here) = v.indexed u g in
            subst (NoMore s (at s.heap 0)) here
              (root-NoMore s v.loads s.heap.heap_size v.heap.order (s.heap.index u) lu);
        charged = λ u. refl;
        group_load = refl;
        groups = (refl, refl);
        valid = charged-IsSched s v 0 some_target room (omega (arith, v.small.1));
      },
    )

-- A group with room gives out, whatever the timeout, one of its targets that is loaded least in
-- proportion and has room itself; that target and the group carry one load more, no other target
-- changes its load, and the group stays valid.
pub acquire-Takes :
    (waits : Bool) (wakes : List Wake) (s : Sched)
    → IsSched s
    → s.cur_load < s.max_load
    → (t : ℕ) × (s' : Sched) × (acquire waits wakes s ≡ some (some t, s')) × Takes s s' t
unfolding acquire wait_for_room
acquire-Takes waits wakes s v l =
    let not_full : is_full s ≡ false = ground arith in
    let (t, s', e, k) = take_root-Takes 0 s v l in (t, s', simp not_full (ap some e), k)
