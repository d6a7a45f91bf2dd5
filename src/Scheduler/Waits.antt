-- ===== src/Scheduler/Waits.antt =====
-- The wait for room of the group and of a target, and what acquire of the group comes to with it.
use mathlib.Core.Path.{subst}
use demo_submodule.Prelude.{
  ℕ, ◌≡◌, ◌⊎◌, refl, sym, ap, Bool, true, false, not, ◌&&◌, ◌||◌, Option, none, some, List, [], ◌∷◌,
  arith, ◌==◌, Bool-cases, inl, inr, All,
}
use demo_submodule.Scheduler.{
  Sched, Wake, less, is_full, take_root, wait_loop, wait_for_room, then_take, acquire, enter_group,
  leave_group,
}
use demo_submodule.Scheduler.Operations.{IsSched}
use demo_submodule.Scheduler.Runs.{Takes, take_root-Takes}

-- The wait ends with an error, as it does when its time is over.
unfoldable pub times_out : List Wake → Bool
times_out [] = false
times_out ((ret, others) ∷ wakes) = not (ret == 0) || times_out wakes

-- What others do while the mutex is free keeps `P`.
abbrev pub Keep : (Sched → Type 0) → Wake → Type 0
Keep P wake = (s : Sched) → P s → P (wake.1 s)

module _ (P : Sched → Type 0) (full : Sched → Bool) (enter leave : Sched → Sched)
    (entered : (s : Sched) → P s → P (enter s)) (left : (s : Sched) → P s → P (leave s)) where
  wait_loop-ends :
      (wakes : List Wake) (s : Sched)
      → All (Keep P) wakes
      → P s
      → times_out wakes ≡ true
      → (ret : ℕ) × (s' : Sched) × (wait_loop full enter leave wakes s ≡ some (ret, s')) × P s'
  unfolding wait_loop times_out
  wait_loop-ends [] s k p e = absurd (ground arith)
  wait_loop-ends ((ret, others) ∷ wakes) s k p e =
      let s' = leave (others (enter s)) in
      let p' : P s' = left (others (enter s)) (k.0 (enter s) (entered s p)) in
      elim (Bool-cases (full s' && (ret == 0))) [
        | inl again ↦ rw again (wait_loop-ends wakes s' k.1 p' (ground (arith, again)))
        | inr over ↦ rw over (ret, s', refl, p')
      ]

  pub wait_for_room-ends :
      (waits : Bool) (wakes : List Wake) (s : Sched)
      → All (Keep P) wakes
      → P s
      → (waits ≡ false) ⊎ (times_out wakes ≡ true)
      → (ret : ℕ) × (s' : Sched) × (wait_for_room full enter leave waits wakes s ≡ some (ret, s'))
        × P s'
  unfolding wait_for_room
  wait_for_room-ends waits wakes s k p e = elim (Bool-cases (full s)) [
    | inl f ↦ elim e [
      | inl stay ↦ rw (f, stay) (11, s, refl, p)
      | inr over ↦ elim (Bool-cases waits) [
        | inl wait ↦ rw (f, wait) (wait_loop-ends wakes s k p over)
        | inr stay ↦ rw (f, stay) (11, s, refl, p)
      ]
    ]
    | inr f ↦ rw f (0, s, refl, p)
  ]

-- What acquire of a group returned, and the state behind it: no target, when the group has no
-- room, or a target that it took from a valid state.
pub Acquired : Option ℕ → Sched → Type 0
Acquired none s = IsSched s × (is_full s ≡ true)
Acquired (some t) s = (s₀ : Sched) × IsSched s₀ × Takes s₀ s t

pub take_root-Acquired :
    (ret : ℕ) (s : Sched) → IsSched s → Acquired (take_root ret s).0 (take_root ret s).1
unfolding Acquired take_root
take_root-Acquired ret s v = elim (Bool-cases (is_full s)) [
  | inl full ↦ rw full (v, full)
  | inr room ↦
      let (t, s', e, k) = take_root-Takes ret s v (ground arith) in
      subst (λ (r : Option ℕ × Sched). Acquired r.0 r.1) (sym e) (s, v, k)
]

pub enter_group-IsSched : (s : Sched) → IsSched s → IsSched (enter_group s)
unfolding less
enter_group-IsSched s v = record {
  heap = v.heap;
  members = v.members;
  indexed = v.indexed;
  address = v.address;
  cur = v.cur;
  max = v.max;
  loads = v.loads;
  small = v.small;
}

pub leave_group-IsSched : (s : Sched) → IsSched s → IsSched (leave_group s)
unfolding less
leave_group-IsSched s v = record {
  heap = v.heap;
  members = v.members;
  indexed = v.indexed;
  address = v.address;
  cur = v.cur;
  max = v.max;
  loads = v.loads;
  small = v.small;
}

-- When it does not wait, or when its wait is over at some time, and the others keep the group valid
-- meanwhile, acquire of a valid group returns: with no target if the group is full then, and else
-- with a target that is loaded least at that time.
pub acquire-ends :
    (waits : Bool) (wakes : List Wake) (s : Sched)
    → IsSched s
    → All (Keep IsSched) wakes
    → (waits ≡ false) ⊎ (times_out wakes ≡ true)
    → (r : Option ℕ) × (s' : Sched) × (acquire waits wakes s ≡ some (r, s')) × Acquired r s'
unfolding acquire
acquire-ends waits wakes s v k e =
    let (ret, s', q, v') =
      wait_for_room-ends IsSched is_full enter_group leave_group enter_group-IsSched
        leave_group-IsSched waits wakes s k v e in
    (
      (take_root ret s').0,
      (take_root ret s').1,
      ap (then_take take_root) q,
      take_root-Acquired ret s' v',
    )

pub Acquired-IsSched : (r : Option ℕ) (s : Sched) → Acquired r s → IsSched s
unfolding Acquired
Acquired-IsSched none s a = a.0
Acquired-IsSched (some t) s a = a.2.valid
