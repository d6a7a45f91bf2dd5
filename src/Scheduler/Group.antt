-- ===== src/Scheduler/Group.antt =====
-- What add and remove of a group come to.
use mathlib.Core.Path.{subst}
use demo_submodule.Prelude.{
  ℕ, ◌+◌, ◌<◌, ◌≡◌, ◌≢◌, refl, sym, ap, ◌∙◌, Bool, false, ◌&&◌, Option, none, some, arith, ltb,
  ◌==◌, if◌then◌else◌, Bool-cases, inl, inr, update, sum_upto-pos, le-sum_upto,
}
use demo_submodule.Cstring.{size_mod}
use demo_submodule.TargetHeap.{TargetHeap, at, heap_insert}
use demo_submodule.TargetHeap.Filled.{Knows, total}
use demo_submodule.TargetHeap.Insert.{Adds, heap_insert-IsValid, heap_insert-none}
use demo_submodule.TargetHeap.Remove.{Removes, heap_remove-IsValid}
use demo_submodule.TargetHeap.Keeps.{IsValid}
use demo_submodule.Scheduler.{
  Sched, Outcome, done, no_memory, exists, invalid, busy, no_entry, less, add, admit, admit_if,
  remove, subtract,
}
use demo_submodule.Scheduler.Load.{less-IsOrder}
use demo_submodule.Scheduler.Operations.{IsSched, not_member, cur_load-le}

abbrev is_it : ℕ → ℕ → ℕ
is_it t u = if u == t then 1 else 0

-- How often a target stands in the heap tells where it stands.
counted :
    (n t : ℕ) (k : TargetHeap)
    → 0 < total n (is_it t) k
    → Knows n k
    → (k.index t < n) × (at k (k.index t) ≡ t)
counted n t k pos w =
    let (c, l, found) = sum_upto-pos n (λ c. is_it t (at k c)) pos in
    let e : at k c ≡ t = ground arith in
    subst (λ u. (k.index u < n) × (at k (k.index u) ≡ u)) e (ground (arith, w c l, ap (at k)))

counts : (n i t : ℕ) (h : TargetHeap) → i < n → at h i ≡ t → 0 < total n (is_it t) h
counts n i t h l e = ground (arith, le-sum_upto n i (λ c. is_it t (at h c)) l)

-- A group after its targets changed: `k` is its heap and `mine` says which targets are in it.
module _ (s : Sched) (v : IsSched s) (t : ℕ) where
  admitted :
      (k : TargetHeap)
      → s.group t ≡ 0
      → s.max_load + s.target_max t < size_mod
      → IsValid (less s) k
      → Adds t s.heap k
      → IsSched (admit t k s)
  unfolding less
  admitted k out fits w a = record {
    heap = w;
    members = λ c l.
        let (d, ld, e) = a.covers c l in
        elim (Bool-cases (d == s.heap.heap_size)) [
          | inl z ↦ ground (arith, e)
          | inr z ↦ ground (arith, e, v.members d, ap s.group (e))
        ];
    indexed = λ u g.
        counted k.heap_size u k
          (elim (Bool-cases (u == t)) [
            | inl z ↦ ground (arith, z, a.sums (is_it u))
            | inr z ↦
                let (l, here) = v.indexed u (ground (arith, g)) in
                omega (
                  arith,
                  a.sums (is_it u),
                  counts s.heap.heap_size (s.heap.index u) u s.heap l here,
                )
          ])
          w.knows;
    address = v.address;
    cur = a.sums s.target_cur ∙ ap (λ (x : ℕ). x + s.target_cur t) v.cur;
    max = a.sums s.target_max ∙ ap (λ (x : ℕ). x + s.target_max t) v.max;
    loads = v.loads;
    small = (omega (arith, cur_load-le s v, (v.loads t).within), fits);
  }

  dismissed :
      (k : TargetHeap)
      → s.group t ≡ s.self
      → IsValid (less s) k
      → Removes (s.heap.index t) s.heap k
      → IsSched (record s {
        heap = k;
        max_load = subtract s.max_load (s.target_max t);
        cur_load = subtract s.cur_load (s.target_cur t);
        group = update s.group t 0;
      })
  unfolding less
  dismissed k member w r =
      let (lt, here) = v.indexed t member in
      record {
        heap = w;
        members = λ c l.
            let (d, ld, ne, e) = r.covers c l in
            ground (arith, e, v.members d ld, v.heap.knows d ld, here, ap s.group e);
        indexed = λ u g.
            counted k.heap_size u k
              (let away : (u == t) ≡ false = ground (arith, g, v.address) in
                let (l, there) = v.indexed u (ground (arith, g)) in
                let moved : is_it u (at s.heap (s.heap.index t)) ≡ 0 = ground (arith, here) in
                omega (
                  arith,
                  moved,
                  r.sums (is_it u),
                  counts s.heap.heap_size (s.heap.index u) u s.heap l there,
                ))
              w.knows;
        address = v.address;
        cur =
            (let at_t = ap s.target_cur here in
              omega (arith, r.sums s.target_cur, at_t, v.cur, v.small.0));
        max =
            (let at_t = ap s.target_max here in
              omega (arith, r.sums s.target_max, at_t, v.max, v.small.1));
        loads = v.loads;
        small = (omega arith, omega arith);
      }

-- From `s` to `s'` the target `t` came into the group, with its loads.
pub record Joins (s s' : Sched) (t : ℕ) : Type 0 where
  pub free : (s.group t ≡ 0) × (s.target_wait t ≡ 0)
  pub grouped : (u : ℕ) → s'.group u ≡ (if u == t then s.self else s.group u)
  pub cur : s'.cur_load ≡ s.cur_load + s.target_cur t
  pub max : s'.max_load ≡ s.max_load + s.target_max t
  -- one waiter of the group is woken, if there is one and room for it
  pub told :
      s'.signals ≡ s.signals + (if ltb 0 s.wait_cnt && ltb s'.cur_load s'.max_load then 1 else 0)
  pub valid : IsSched s'

-- What add returned, and the state behind it.
pub Added : Bool → ℕ → Sched → Outcome → Sched → Type 0
Added granted t s done s' = Joins s s' t
Added granted t s no_memory s' =
    (s' ≡ s) × (s.group t ≡ 0) × (granted ≡ false) × (s.heap.heap_size ≡ s.heap.heap_buf_size)
Added granted t s exists s' = (s' ≡ s) × (s.group t ≡ s.self)
Added granted t s invalid s' = (s' ≡ s) × (s.group t ≢ 0) × (s.group t ≢ s.self)
Added granted t s busy s' = (s' ≡ s) × (s.group t ≡ 0) × (0 < s.target_wait t)
Added granted t s no_entry s' = ⊥

admit_if-Added :
    (granted : Bool) (t : ℕ) (s : Sched)
    → IsSched s
    → s.max_load + s.target_max t < size_mod
    → s.group t ≡ 0
    → s.target_wait t ≡ 0
    → (r : Option TargetHeap) → heap_insert (less s) granted t s.heap ≡ r
    → Added granted t s (admit_if t r s).0 (admit_if t r s).1
unfolding Added admit_if
admit_if-Added granted t s v fits out idle none e =
    let (refused, full) = heap_insert-none (less s) granted t s.heap e in (refl, out, refused, full)
admit_if-Added granted t s v fits out idle (some k) e =
    let new = not_member s v t (λ x. v.address (sym x ∙ out)) in
    let (w, a) =
      heap_insert-IsValid (less s) (less-IsOrder s v.loads) t granted s.heap k v.heap new e in
    record {
      free = (out, idle);
      grouped = λ u. refl;
      cur = refl;
      max = refl;
      told = ground arith;
      valid = admitted s v t k out fits w a;
    }

-- In a valid group, whose loads do not wrap round with the target's, add takes the target in if it
-- is in no group and nobody waits for it, keeps the group valid, and wakes one waiter of the group
-- if there is room; it changes nothing and says so if the array is full and cannot be made larger,
-- if the target is in this group, if it is in another, and if somebody waits for it.
pub add-Added :
    (granted : Bool) (t : ℕ) (s : Sched)
    → IsSched s
    → s.max_load + s.target_max t < size_mod
    → Added granted t s (add granted t s).0 (add granted t s).1
unfolding Added add
add-Added granted t s v fits = elim (Bool-cases (s.group t == 0)) [
  | inl out ↦ elim (Bool-cases (s.target_wait t == 0)) [
    | inl idle ↦
        rw (out, idle)
          (admit_if-Added granted t s v fits (ground (arith, out)) (ground (arith, idle)) _ refl)
    | inr waited ↦
        let other : (s.group t == s.self) ≡ false = ground (arith, v.address, out) in
        simp (out, waited, other) (refl, ground (arith, out), ground (arith, waited))
  ]
  | inr grouped ↦ elim (Bool-cases (s.group t == s.self)) [
    | inl mine ↦ simp (grouped, mine) (refl, ground (arith, mine))
    | inr other ↦ simp (grouped, other) (refl, ground (arith, grouped), ground (arith, other))
  ]
]

-- From `s` to `s'` the target `t` left the group, with its loads.
pub record Leaves (s s' : Sched) (t : ℕ) : Type 0 where
  pub member : (s.group t ≡ s.self) × (s.target_wait t ≡ 0)
  pub grouped : (u : ℕ) → s'.group u ≡ (if u == t then 0 else s.group u)
  pub cur : s'.cur_load + s.target_cur t ≡ s.cur_load
  pub max : s'.max_load + s.target_max t ≡ s.max_load
  pub size : s'.heap.heap_size + 1 ≡ s.heap.heap_size
  pub valid : IsSched s'

-- What remove returned, and the state behind it.
pub Removed : ℕ → Sched → Outcome → Sched → Type 0
Removed t s done s' = Leaves s s' t
Removed t s no_memory s' = ⊥
Removed t s exists s' = ⊥
Removed t s invalid s' = ⊥
Removed t s busy s' = (s' ≡ s) × (s.group t ≡ s.self) × (0 < s.target_wait t)
Removed t s no_entry s' = (s' ≡ s) × (s.group t ≢ s.self)

-- In a valid group, remove takes a target of the group that nobody waits for out of it, with its
-- loads, and keeps the group valid; it changes nothing and says so if the target is not in this
-- group and if somebody waits for it.
pub remove-Removed : (t : ℕ) (s : Sched) → IsSched s → Removed t s (remove t s).0 (remove t s).1
unfolding Removed remove
remove-Removed t s v = elim (Bool-cases (s.group t == s.self)) [
  | inl mine ↦ elim (Bool-cases (s.target_wait t == 0)) [
    | inl idle ↦
        let member : s.group t ≡ s.self = ground (arith, mine) in
        let (lt, here) = v.indexed t member in
        let (w, r) =
          heap_remove-IsValid (less s) (less-IsOrder s v.loads) (s.heap.index t) s.heap v.heap lt in
        rw (mine, idle)
          (record {
            member = (member, ground (arith, idle));
            grouped = λ u. refl;
            cur =
                (let at_t = ap s.target_cur here in
                  omega (arith, r.sums s.target_cur, at_t, v.cur, v.small.0));
            max =
                (let at_t = ap s.target_max here in
                  omega (arith, r.sums s.target_max, at_t, v.max, v.small.1));
            size = omega (arith, r.size, lt);
            valid = dismissed s v t _ member w r;
          })
    | inr waited ↦ simp (mine, waited) (refl, ground (arith, mine), ground (arith, waited))
  ]
  | inr other ↦ simp other (refl, ground (arith, other))
]

pub Added-IsSched :
    (granted : Bool) (t : ℕ) (s : Sched)
    → IsSched s
    → (o : Outcome) (s' : Sched) → Added granted t s o s'
    → IsSched s'
unfolding Added
Added-IsSched granted t s v done s' a = a.valid
Added-IsSched granted t s v no_memory s' a = subst IsSched (sym a.0) v
Added-IsSched granted t s v exists s' a = subst IsSched (sym a.0) v
Added-IsSched granted t s v invalid s' a = subst IsSched (sym a.0) v
Added-IsSched granted t s v busy s' a = subst IsSched (sym a.0) v
Added-IsSched granted t s v no_entry s' a = absurd a

pub Removed-IsSched :
    (t : ℕ) (s : Sched) → IsSched s → (o : Outcome) (s' : Sched) → Removed t s o s' → IsSched s'
unfolding Removed
Removed-IsSched t s v done s' a = a.valid
Removed-IsSched t s v no_memory s' a = absurd a
Removed-IsSched t s v exists s' a = absurd a
Removed-IsSched t s v invalid s' a = absurd a
Removed-IsSched t s v busy s' a = subst IsSched (sym a.0) v
Removed-IsSched t s v no_entry s' a = subst IsSched (sym a.0) v
