-- ===== src/Scheduler/Operations.antt =====
-- What the operations of a group keep.
use mathlib.Core.Path.{subst}
use demo_submodule.Prelude.{
  ℕ, ◌+◌, ◌≤◌, ◌<◌, ◌≡◌, ◌≢◌, ap, sym, ◌∙◌, arith, update, sum_upto_ext, sum_upto-change,
  le-sum_upto,
}
use demo_submodule.Cstring.{size_mod}
use demo_submodule.TargetHeap.{TargetHeap, at, parent}
use demo_submodule.TargetHeap.Filled.{Same-index, total, Same}
use demo_submodule.TargetHeap.Keeps.{IsValid, heapify-IsValid, heap_adjust-IsValid}
use demo_submodule.Scheduler.{Sched, less, charge, charge_group, sink, rise, decrement}
use demo_submodule.Scheduler.Load.{
  IsLoaded, with_load, less-IsOrder, with_load-IsOrder, with_load-OnlyAt, with_load-grew,
  with_load-shrank, with_load-IsLoaded,
}
use demo_submodule.Scheduler.Root.{sum_le}

-- A group between two operations: its heap holds exactly its targets, in order, and its loads are
-- the sums of theirs.
pub record IsSched (s : Sched) : Type 0 where
  pub heap : IsValid (less s) s.heap
  pub members : (c : ℕ) → c < s.heap.heap_size → s.group (at s.heap c) ≡ s.self
  pub indexed :
      (t : ℕ)
      → s.group t ≡ s.self
      → (s.heap.index t < s.heap.heap_size) × (at s.heap (s.heap.index t) ≡ t)
  pub address : s.self ≢ 0
  pub cur : total s.heap.heap_size s.target_cur s.heap ≡ s.cur_load
  pub max : total s.heap.heap_size s.target_max s.heap ≡ s.max_load
  pub loads : (t : ℕ) → IsLoaded (s.target_max t) (s.target_cur t)
  pub small : (s.cur_load < size_mod) × (s.max_load < size_mod)

-- A group never carries more than it may.
pub cur_load-le : (s : Sched) → IsSched s → s.cur_load ≤ s.max_load
cur_load-le s v = omega (
  arith,
  v.cur,
  v.max,
  sum_le s.heap.heap_size (λ c. s.target_cur (at s.heap c)) (λ c. s.target_max (at s.heap c))
      (λ c l. (v.loads (at s.heap c)).within),
)

-- Another load on the target at `i` changes the sum of the loads by as much.
total-update :
    (n i : ℕ) (f : ℕ → ℕ) (x : ℕ) (h : TargetHeap)
    → i < n
    → ((c : ℕ) → c < n → h.index (at h c) ≡ c)
    → total n (update f (at h i) x) h + f (at h i) ≡ total n f h + x
total-update n i f x h l k =
    let change =
      sum_upto-change n i (λ c. update f (at h i) x (at h c)) (λ c. f (at h c)) l
        (λ c lc d. ground (arith, k c lc, k i l)) in
    ground (arith, change)

module _ (s : Sched) (v : IsSched s) (i : ℕ) (li : i < s.heap.heap_size) where
  -- The state after the target at `i` has another load and the heap was put in order again.
  reloaded :
      (x cur_load signals : ℕ) (target_signals : ℕ → ℕ) (h : TargetHeap)
      → Same s.heap.heap_size s.heap h
      → IsValid (less (with_load (at s.heap i) x s)) h
      → x ≤ s.target_max (at s.heap i)
      → cur_load + s.target_cur (at s.heap i) ≡ s.cur_load + x
      → cur_load < size_mod
      → IsSched (record s {
        heap = h;
        target_cur = update s.target_cur (at s.heap i) x;
        cur_load = cur_load;
        signals = signals;
        target_signals = target_signals;
      })
  unfolding less
  reloaded x cur_load signals target_signals h k w lx e z = record {
    heap = w;
    members =
        λ c l. let (d, ld, p) = k.covers c (omega (arith, k.size)) in ap s.group p ∙ v.members d ld;
    indexed = λ t g.
        let (lt, here) = v.indexed t g in
        let knows = λ (c : ℕ) (l : c < s.heap.heap_size). w.knows c (omega (arith, k.size)) in
        let (l', there) = Same-index s.heap.heap_size (s.heap.index t) s.heap h lt k knows in
        let at_t =
          subst (λ u. (h.index u < s.heap.heap_size) × (at h (h.index u) ≡ u)) here (l', there) in
        (omega (arith, at_t.0, k.size), at_t.1);
    address = v.address;
    cur =
        let f = update s.target_cur (at s.heap i) x in
        omega (
          arith,
          ap (λ n. total n f h) k.size,
          k.sums f,
          total-update s.heap.heap_size i s.target_cur x s.heap li v.heap.knows,
          v.cur,
          e,
        );
    max = ap (λ n. total n s.target_max h) k.size ∙ k.sums s.target_max ∙ v.max;
    loads = with_load-IsLoaded (at s.heap i) x s v.loads lx;
    small = (z, v.small.1);
  }

  -- One load more on the target at `i`, and `heapify`.
  pub charged-IsSched :
      s.target_cur (at s.heap i) < s.target_max (at s.heap i)
      → s.cur_load + 1 < size_mod
      → IsSched (sink i (charge_group (charge (at s.heap i) s)))
  unfolding less
  charged-IsSched room z =
      let t = at s.heap i in
      let x = s.target_cur t + 1 in
      let (w, k) =
        heapify-IsValid (less s) (less (with_load t x s)) (less-IsOrder s v.loads)
          (with_load-IsOrder t x s v.loads (omega arith)) i s.heap v.heap li
          (with_load-OnlyAt t x s v.loads (omega arith))
          (with_load-grew t x s v.loads (omega arith) (omega arith)) in
      reloaded x (s.cur_load + 1) s.signals s.target_signals _ k w (omega arith) (omega arith) z

  -- One load less on the target at `i`, and `heap_adjust`.
  pub discharged-IsSched :
      (signals : ℕ) (target_signals : ℕ → ℕ)
      → 0 < s.target_cur (at s.heap i)
      → IsSched (
          rise i (record s {
            target_cur = update s.target_cur (at s.heap i) (decrement (s.target_cur (at s.heap i)));
            cur_load = decrement s.cur_load;
            signals = signals;
            target_signals = target_signals;
          }))
  unfolding less
  discharged-IsSched signals target_signals pos =
      let t = at s.heap i in
      let x = decrement (s.target_cur t) in
      let within = (v.loads t).within in
      let bounded = (v.loads t).small in
      let in_sum = le-sum_upto s.heap.heap_size i (λ c. s.target_cur (at s.heap c)) li in
      let lx : x ≤ s.target_max t = omega arith in
      let le : x ≤ s.target_cur t = omega arith in
      let (w, k) =
        heap_adjust-IsValid (less s) (less (with_load t x s)) (less-IsOrder s v.loads)
          (with_load-IsOrder t x s v.loads lx) i s.heap v.heap li
          (with_load-OnlyAt t x s v.loads lx) (with_load-shrank t x s v.loads lx le) in
      reloaded x (decrement s.cur_load) signals target_signals _ k w lx
        (omega (arith, v.small, v.cur)) (omega arith)

module _ (s : Sched) (v : IsSched s) (t : ℕ) (free : s.group t ≢ s.self) where
  pub not_member : (c : ℕ) → c < s.heap.heap_size → at s.heap c ≢ t
  not_member c l e = free (ap s.group (sym e) ∙ v.members c l)

  -- The load of a target that is not in the group is no matter of the group.
  pub free-IsSched :
      (x : ℕ) (target_signals : ℕ → ℕ)
      → x ≤ s.target_max t
      → IsSched (record s { target_cur = update s.target_cur t x; target_signals = target_signals })
  unfolding less
  free-IsSched x target_signals lx =
      let only = with_load-OnlyAt t x s v.loads lx in
      record {
        heap = record {
          order = λ c p l.
              only.others (at s.heap c) (at s.heap (parent c)) (not_member c l)
                (not_member (parent c) (omega arith))
              ∙ v.heap.order c p l;
          knows = v.heap.knows;
          room = v.heap.room;
          fits = v.heap.fits;
          some_room = v.heap.some_room;
        };
        members = v.members;
        indexed = v.indexed;
        address = v.address;
        cur = sum_upto_ext s.heap.heap_size _ _ (λ c l. ground (arith, not_member c l)) ∙ v.cur;
        max = v.max;
        loads = with_load-IsLoaded t x s v.loads lx;
        small = v.small;
      }
