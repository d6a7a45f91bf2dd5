-- ===== src/TargetHeap/Remove.antt =====
-- What heap_remove comes to.
use mathlib.Core.Path.{subst}
use demo_submodule.Prelude.{
  ℕ, zero, suc, ◌+◌, ◌-◌, ◌<◌, ◌≤◌, ◌≡◌, ◌≢◌, refl, sym, ap, ◌∙◌, Bool, true, false, ◌&&◌, ◌==◌,
  ltb, if◌then◌else◌, length, length-set, arith, Bool-cases, inl, inr, sum_upto, sum_upto-change,
  sum_upto-add_one,
}
use demo_submodule.TargetHeap.{
  TargetHeap, at, place, parent, adjust_loop, heap_adjust, heapify, refill, heap_remove,
}
use demo_submodule.TargetHeap.Filled.{Same-index, Knows, total, Same, Same-trans, at-place}
use demo_submodule.TargetHeap.Up.{
  IsOrder, IsHeap, UpInv, Restores, Restores-trans, heap_adjust-Restores,
}
use demo_submodule.TargetHeap.Down.{DownInv, heapify-Restores}
use demo_submodule.TargetHeap.Keeps.{
  IsValid, Restores-IsValid, place_self-Knows, at-place_self, place_self-Same,
}

-- The heap `k` is `h` without the target at `i`.
pub record Removes (i : ℕ) (h k : TargetHeap) : Type 0 where
  pub size : k.heap_size ≡ h.heap_size - 1
  pub sums : (f : ℕ → ℕ) → total k.heap_size f k + f (at h i) ≡ total h.heap_size f h
  pub covers : (c : ℕ) → c < k.heap_size → (d : ℕ) × (d < h.heap_size) × (d ≢ i) × (at k c ≡ at h d)

place_self-DownInv :
    (less : ℕ → ℕ → Bool) (n i : ℕ) (h : TargetHeap)
    → i < length h.tg_heap
    → i < n
    → DownInv less n h i
    → DownInv less n (place (at h i) i h) i
place_self-DownInv less n i h l li v =
    let self = λ (c : ℕ). at-place_self i c h l in
    record {
      edges = λ c p q r. rw (self c, self (parent c)) (v.edges c p q r);
      bridged = λ c p q r u. rw (self c, self (parent i)) (v.bridged c p q r u);
      knows = place_self-Knows n i h l li v.knows;
    }

-- A heap is in order below every place.
ordered-DownInv :
    (less : ℕ → ℕ → Bool)
    → IsOrder less
    → (n i : ℕ) (h : TargetHeap) → IsHeap less n h
    → Knows n h
    → i < n
    → DownInv less n h i
ordered-DownInv less o n i h v k li = record {
  edges = λ c p q r. v c p q;
  bridged = λ c p q r u.
      ground (arith, v c p q, v i u li, o.trans (at h c) (at h i) (at h (parent i)), ap (at h) r);
  knows = k;
}

-- The last target leaves.
shorter :
    {less : ℕ → ℕ → Bool} (i : ℕ) (h : TargetHeap)
    → IsValid less h
    → i < h.heap_size
    → i ≡ h.heap_size - 1
    → IsValid less (record h { heap_size = h.heap_size - 1 })
      × Removes i h (record h { heap_size = h.heap_size - 1 })
shorter i h v li e = (
  record {
    order = λ c p q. v.order c p (omega arith);
    knows = λ c q. v.knows c (omega arith);
    room = v.room;
    fits = omega (arith, v.fits);
    some_room = v.some_room;
  },
  record {
    size = refl;
    sums = λ f.
        let fh : ℕ → ℕ = λ c. f (at h c) in
        let full : h.heap_size ≡ h.heap_size - 1 + 1 = omega arith in
        omega
          (arith, ap (λ z. sum_upto z fh) full ∙ sum_upto-add_one (h.heap_size - 1) fh, ap fh e);
    covers = λ c q. (c, omega arith, omega arith, refl);
  },
)

module _ (less : ℕ → ℕ → Bool) (o : IsOrder less) where
  -- A target that does not rise stays.
  adjust_loop-stay :
      (fuel t i : ℕ) (h : TargetHeap)
      → (ltb 0 i && less t (at h (parent i))) ≡ false
      → adjust_loop less fuel t i h ≡ place t i h
  unfolding adjust_loop
  adjust_loop-stay zero t i h b = refl
  adjust_loop-stay (suc fuel) t i h b = rw b

  module _ (i : ℕ) (h : TargetHeap) (v : IsValid less h) (li : i < h.heap_size - 1) where
    abbrev n : ℕ
    n = h.heap_size - 1

    -- The heap without its last target, which stands at `i` instead.
    abbrev k : TargetHeap
    k = place (at h n) i (record h { heap_size = n })

    at-k : (c : ℕ) → at k c ≡ (if i == c then at h n else at h c)
    at-k c = at-place (at h n) i c h (omega (arith, v.room, v.fits))

    room_k : length k.tg_heap ≡ h.heap_buf_size
    room_k = length-set h.tg_heap i (at h n) ∙ v.room

    k-Knows : Knows n k
    k-Knows c l = ground (arith, at-k c, v.knows c, v.knows n)

    self_k : (c : ℕ) → at (place (at k i) i k) c ≡ at k c
    self_k c = at-place_self i c k (omega (arith, room_k, v.fits))

    k-Removes : (m : TargetHeap) → Same n k m → Removes i h m
    k-Removes m s = record {
      size = s.size;
      sums = λ f.
          let fh : ℕ → ℕ = λ c. f (at h c) in
          let full : h.heap_size ≡ n + 1 = omega arith in
          let change =
            sum_upto-change n i (λ c. f (at k c)) fh li (λ c l d. ap f (ground (arith, at-k c))) in
          let filled : f (at k i) ≡ fh n = ap f (ground (arith, at-k i)) in
          let all = ap (λ z. sum_upto z fh) full ∙ sum_upto-add_one n fh in
          let resized = ap (λ z. sum_upto z (λ c. f (at m c))) s.size in
          omega (arith, change, filled, all, resized, s.sums f);
      covers = λ c l.
          let (d, ld, e) = s.covers c (omega (arith, s.size)) in
          elim (Bool-cases (i == d)) [
            | inl z ↦ (n, omega arith, omega arith, ground (arith, e, at-k d))
            | inr z ↦ (d, omega arith, ground arith, ground (arith, e, at-k d))
          ];
    }

    rises :
        (ltb 0 i && less (at k i) (at k (parent i))) ≡ true → UpInv less n (place (at k i) i k) i
    rises b = record {
      edges = λ c p q r. ground (
        arith,
        b,
        self_k c,
        self_k (parent c),
        at-k c,
        at-k i,
        at-k (parent c),
        at-k (parent i),
        v.order c p,
        v.order i,
        ap (at h),
        o.trans (at h c) (at h i) (at h (parent i)),
        o.asym (at h n) (at h (parent i)),
        o.trans (at h c) (at h (parent i)) (at h n),
      );
      bridged = λ c p q r u. ground (
        arith,
        self_k c,
        self_k (parent i),
        at-k c,
        at-k (parent i),
        v.order c p,
        v.order i u,
        o.trans (at h c) (at h i) (at h (parent i)),
      );
      knows = place_self-Knows n i k (omega (arith, room_k, v.fits)) li k-Knows;
    }

    sinks :
        (ltb 0 i && less (at k i) (at k (parent i))) ≡ false → DownInv less n (place (at k i) i k) i
    sinks b = record {
      edges = λ c p q r. ground (
        arith,
        b,
        self_k c,
        self_k (parent c),
        at-k c,
        at-k i,
        at-k (parent c),
        at-k (parent i),
        v.order c p,
        ap (at h),
      );
      bridged = λ c p q r u. ground (
        arith,
        self_k c,
        self_k (parent i),
        at-k c,
        at-k (parent i),
        v.order c p,
        v.order i u,
        o.trans (at h c) (at h i) (at h (parent i)),
      );
      knows = place_self-Knows n i k (omega (arith, room_k, v.fits)) li k-Knows;
    }

    fits_k : n ≤ length k.tg_heap
    fits_k = omega (arith, room_k, v.fits)

    -- The target that was moved knows where it stands after it has risen.
    position :
        (m : TargetHeap)
        → Same n k m
        → Knows n m
        → (m.index (at h n) < n) × (at m (m.index (at h n)) ≡ at h n)
    position m s w =
        subst (λ t. (m.index t < n) × (at m (m.index t) ≡ t)) (ground (arith, at-k i))
          (Same-index n i k m li s w)

    -- What `heapify` does once the moved target has risen as far as it must.
    sunk :
        (m : TargetHeap) (p : ℕ)
        → Same n k m
        → p < n
        → DownInv less n m p
        → Restores less n k (heapify less p m)
    sunk m p s lp w =
        let l : n ≤ length m.tg_heap = omega (arith, s.room, fits_k) in
        let l' : p < length m.tg_heap = omega arith in
        Restores-trans less n k (place (at m p) p m) _
          (Same-trans n k m (place (at m p) p m) s (place_self-Same n p m l'))
          (heapify-Restores less o n p m l s.size lp (place_self-DownInv less n p m l' lp w))

    refill-Restores : Restores less n k (refill less i (record h { heap_size = n }))
    unfolding refill heap_adjust
    refill-Restores = elim (Bool-cases (ltb 0 i && less (at k i) (at k (parent i)))) [
      | inl b ↦
          let r = heap_adjust-Restores less o n i k fits_k li (rises b) in
          let m = heap_adjust less i k in
          let s =
            Same-trans n k (place (at k i) i k) m (place_self-Same n i k (omega (arith, fits_k)))
              r.same in
          let (lp, e) = position m s r.knows in
          sunk m (m.index (at h n)) s lp (ordered-DownInv less o n _ m r.order r.knows lp)
      | inr b ↦
          let m = place (at k i) i k in
          let stays : heap_adjust less i k ≡ m = adjust_loop-stay i (at k i) i k b in
          let here : m.index (at h n) ≡ i = ground (arith, at-k i) in
          subst (λ q. Restores less n k (heapify less (q.index (at h n)) q)) (sym stays)
            (subst (λ p. Restores less n k (heapify less p m)) (sym here)
              (sunk m i (place_self-Same n i k (omega (arith, fits_k))) li (sinks b)))
    ]

  -- `heap_remove` takes the target at `i` out of a valid heap.
  pub heap_remove-IsValid :
      (i : ℕ) (h : TargetHeap)
      → IsValid less h
      → i < h.heap_size
      → IsValid less (heap_remove less i h) × Removes i h (heap_remove less i h)
  unfolding heap_remove
  heap_remove-IsValid i h v li = elim (Bool-cases (i == h.heap_size - 1)) [
    | inl b ↦ rw b (shorter i h v li (ground arith))
    | inr b ↦
        let inside : i < h.heap_size - 1 = ground arith in
        let r = refill-Restores i h v inside in
        rw b (
          Restores-IsValid less (k i h v inside) _ (room_k i h v inside) (omega (arith, v.fits))
              v.some_room r,
          k-Removes i h v inside _ r.same,
        )
  ]
