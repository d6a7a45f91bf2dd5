-- ===== src/Scheduler/Target.antt =====
-- What acquire and release of a target come to, in a group and outside of any.
use mathlib.Core.Path.{subst}
use demo_submodule.Prelude.{
  ℕ, ◌+◌, ◌-◌, ◌<◌, ◌≡◌, ◌⊎◌, refl, sym, ap, ◌∙◌, Bool, true, false, not, ◌&&◌, ◌||◌, Option, none,
  some, List, arith, ltb, ◌==◌, if◌then◌else◌, Bool-cases, inl, inr, All, update, le-sum_upto,
}
use demo_submodule.TargetHeap.{at}
use demo_submodule.Scheduler.{
  Sched, Wake, less, then_take, charge, charge_group, sink, rise, discharge, discharge_group,
  signal_target, acquire_target, take_target, is_target_full, enter_target, leave_target, release,
  decrement,
}
use demo_submodule.Scheduler.Root.{sum_less}
use demo_submodule.Scheduler.Operations.{IsSched, charged-IsSched, discharged-IsSched, free-IsSched}
use demo_submodule.Scheduler.Waits.{times_out, Keep, wait_for_room-ends}

-- The target is in this group or in none.
abbrev pub Near : ℕ → Sched → Type 0
Near t s = (s.group t ≡ 0) ⊎ (s.group t ≡ s.self)

-- From `s` to `s'` the target `t` was charged with one load, which it had room for; and with it its
-- group, if it is in one.
pub record Charges (s s' : Sched) (t : ℕ) : Type 0 where
  pub room : s.target_cur t < s.target_max t
  pub charged : (u : ℕ) → s'.target_cur u ≡ (if u == t then s.target_cur t + 1 else s.target_cur u)
  pub group_load : s'.cur_load ≡ (if s.group t == 0 then s.cur_load else s.cur_load + 1)
  pub valid : IsSched s'

-- What acquire of the target returned, and the state behind it: nothing, when the target is full,
-- or the target itself, charged.
pub AcquiredTarget : ℕ → Option ℕ → Sched → Type 0
AcquiredTarget t none s = IsSched s × Near t s × (is_target_full t s ≡ true)
AcquiredTarget t (some u) s = (u ≡ t) × (s₀ : Sched) × IsSched s₀ × Near t s₀ × Charges s₀ s t

module _ (t : ℕ) (s : Sched) (v : IsSched s) (member : s.group t ≡ s.self) where
  member-charged :
      s.target_cur t < s.target_max t → IsSched (sink (s.heap.index t) (charge_group (charge t s)))
  member-charged room =
      let i = s.heap.index t in
      let (li, here) = v.indexed t member in
      let has_room = subst (λ u. s.target_cur u < s.target_max u) (sym here) room in
      let below =
        sum_less s.heap.heap_size i (λ c. s.target_cur (at s.heap c))
          (λ c. s.target_max (at s.heap c)) li (λ c l. (v.loads (at s.heap c)).within) has_room in
      subst (λ u. IsSched (sink i (charge_group (charge u s)))) here
        (charged-IsSched s v i li has_room (omega (arith, v.small.1, v.cur, v.max, below)))

  member-discharged :
      0 < s.target_cur t
      → IsSched (rise (s.heap.index t) (discharge_group t (signal_target t (discharge t s))))
  member-discharged pos =
      let i = s.heap.index t in
      let (li, here) = v.indexed t member in
      subst
        (λ u. IsSched (
          rise i (record s {
            target_cur = update s.target_cur u (decrement (s.target_cur u));
            cur_load = decrement s.cur_load;
            signals =
                if (s.target_wait t == 0) && ltb 0 s.wait_cnt then s.signals + 1 else s.signals;
            target_signals =
                if ltb 0 (s.target_wait t)
                then update s.target_signals t (s.target_signals t + 1)
                else s.target_signals;
          })))
        here (discharged-IsSched s v i li _ _ (subst (λ u. 0 < s.target_cur u) (sym here) pos))

take_target-Charges :
    (t ret : ℕ) (s : Sched)
    → IsSched s
    → Near t s
    → s.target_cur t < s.target_max t
    → (s' : Sched) × (take_target t ret s ≡ (some t, s')) × Charges s s' t
unfolding take_target
take_target-Charges t ret s v near room =
    let not_full : is_target_full t s ≡ false = ground arith in
    elim near [
      | inl out ↦
          let z : (s.group t == 0) ≡ true = ground arith in
          (
            charge t s,
            simp (not_full, z) refl,
            record {
              room = room;
              charged = λ u. refl;
              group_load = rw z refl;
              valid =
                  free-IsSched s v t (λ e. v.address (sym e ∙ out)) (s.target_cur t + 1)
                    s.target_signals (omega arith);
            },
          )
      | inr member ↦
          let z : (s.group t == 0) ≡ false = ground (arith, v.address) in
          (
            sink (s.heap.index t) (charge_group (charge t s)),
            simp (not_full, z) refl,
            record {
              room = room;
              charged = λ u. refl;
              group_load = rw z refl;
              valid = member-charged t s v member room;
            },
          )
    ]

pub take_target-AcquiredTarget :
    (t ret : ℕ) (s : Sched)
    → IsSched s × Near t s
    → AcquiredTarget t (take_target t ret s).0 (take_target t ret s).1
unfolding AcquiredTarget take_target
take_target-AcquiredTarget t ret s (v, near) = elim (Bool-cases (is_target_full t s)) [
  | inl full ↦ rw full (v, near, full)
  | inr room ↦
      let (s', e, k) = take_target-Charges t ret s v near (ground arith) in
      subst (λ (r : Option ℕ × Sched). AcquiredTarget t r.0 r.1) (sym e) (refl, s, v, near, k)
]

pub enter_target-IsSched : (t : ℕ) (s : Sched) → IsSched s → IsSched (enter_target t s)
unfolding less
enter_target-IsSched t s v = record {
  heap = v.heap;
  members = v.members;
  indexed = v.indexed;
  address = v.address;
  cur = v.cur;
  max = v.max;
  loads = v.loads;
  small = v.small;
}

pub leave_target-IsSched : (t : ℕ) (s : Sched) → IsSched s → IsSched (leave_target t s)
unfolding less
leave_target-IsSched t s v = record {
  heap = v.heap;
  members = v.members;
  indexed = v.indexed;
  address = v.address;
  cur = v.cur;
  max = v.max;
  loads = v.loads;
  small = v.small;
}

-- When it does not wait, or when its wait is over at some time, and the others keep the group valid
-- and the target in this group or in none meanwhile, acquire of a target returns: with nothing if
-- the target is full then, and else with the target, which carries one load more, as does its
-- group.
pub acquire_target-ends :
    (t : ℕ) (waits : Bool) (wakes : List Wake) (s : Sched)
    → IsSched s × Near t s
    → All (Keep (λ u. IsSched u × Near t u)) wakes
    → (waits ≡ false) ⊎ (times_out wakes ≡ true)
    → (r : Option ℕ) × (s' : Sched) × (acquire_target t waits wakes s ≡ some (r, s'))
      × AcquiredTarget t r s'
unfolding acquire_target
acquire_target-ends t waits wakes s v k e =
    let (ret, s', q, v') =
      wait_for_room-ends (λ u. IsSched u × Near t u) (is_target_full t) (enter_target t)
        (leave_target t) (λ u p. (enter_target-IsSched t u p.0, p.1))
        (λ u p. (leave_target-IsSched t u p.0, p.1)) waits wakes s k v e in
    (
      (take_target t ret s').0,
      (take_target t ret s').1,
      ap (then_take (take_target t)) q,
      take_target-AcquiredTarget t ret s' v',
    )

-- From `s` to `s'` the target `t` gave back one load.
pub record Releases (s s' : Sched) (t : ℕ) : Type 0 where
  pub lowered : (u : ℕ) → s'.target_cur u ≡ (if u == t then s.target_cur t - 1 else s.target_cur u)
  pub group_load : s'.cur_load ≡ (if s.group t == 0 then s.cur_load else s.cur_load - 1)
  -- one waiter is woken, of the target or else of its group, if there is one
  pub told :
      s'.target_signals t + s'.signals
      ≡ s.target_signals t
        + s.signals
        + (if ltb 0 (s.target_wait t) || (not (s.group t == 0) && ltb 0 s.wait_cnt) then 1 else 0)
  pub valid : IsSched s'

-- In a valid group, release of a target that carries a load takes one load off it and off its
-- group, keeps the group valid, and wakes exactly one waiter, of the target or else of the group,
-- if there is one.
pub release-Releases :
    (t : ℕ) (s : Sched) → IsSched s → Near t s → 0 < s.target_cur t → Releases s (release t s) t
unfolding release
release-Releases t s v near pos =
    let within = (v.loads t).within in
    let bounded = (v.loads t).small in
    let less_one : decrement (s.target_cur t) ≡ s.target_cur t - 1 = omega arith in
    elim near [
      | inl out ↦
          let z : (s.group t == 0) ≡ true = ground arith in
          rw z (record {
            lowered = λ u. ground (arith, less_one);
            group_load = rw z refl;
            told = ground arith;
            valid =
                free-IsSched s v t (λ e. v.address (sym e ∙ out)) (decrement (s.target_cur t)) _
                  (omega arith);
          })
      | inr member ↦
          let z : (s.group t == 0) ≡ false = ground (arith, v.address) in
          let (li, here) = v.indexed t member in
          rw z (record {
            lowered = λ u. ground (arith, less_one);
            group_load =
                let has = subst (λ u. 0 < s.target_cur u) (sym here) pos in
                rw z (
                  omega (
                    arith,
                    has,
                    le-sum_upto s.heap.heap_size (s.heap.index t) (λ c. s.target_cur (at s.heap c))
                        li,
                    v.cur,
                    v.small.0,
                  ));
            told = ground arith;
            valid = member-discharged t s v member pos;
          })
    ]

pub AcquiredTarget-IsSched : (t : ℕ) (r : Option ℕ) (s : Sched) → AcquiredTarget t r s → IsSched s
unfolding AcquiredTarget
AcquiredTarget-IsSched t none s a = a.0
AcquiredTarget-IsSched t (some u) s a = a.4.valid
