-- ===== src/TargetHeap/Down.antt =====
-- heapify on a heap in which one target may stand too high.
use demo_submodule.Prelude.{
  ℕ, zero, suc, ◌+◌, ◌-◌, ◌*◌, ◌<◌, ◌≤◌, ◌≡◌, ◌≢◌, refl, ap, Bool, true, false, ◌&&◌, none, some,
  ltb, ◌==◌, length, length-set, arith, Bool-cases, Option-cases, inl, inr, ◌⊎◌,
}
use demo_submodule.TargetHeap.{
  TargetHeap, at, place, parent, lesser_child, sink_last, sink_loop, heapify,
}
use demo_submodule.TargetHeap.Filled.{
  Knows, Same-refl, at-place, moved, at-moved, moved-Knows, moved-Same,
}
use demo_submodule.TargetHeap.Up.{IsOrder, IsBridged, Restores, Restores-trans}

children : (c i : ℕ) → 0 < c → parent c ≡ i → (c ≡ 2 * i + 1) ⊎ (c ≡ 2 * i + 2)
children c i p r = ground arith

module _ (less : ℕ → ℕ → Bool) where
  -- Only the edges below `i` may be out of order.
  pub record DownInv (n : ℕ) (h : TargetHeap) (i : ℕ) : Type 0 where
    pub edges : (c : ℕ) → 0 < c → c < n → parent c ≢ i → less (at h c) (at h (parent c)) ≡ false
    pub bridged : IsBridged less n h i
    pub knows : Knows n h

  -- The child at `j` of the hole at `i` is less than the target `t`, and no child is less than it.
  record IsLeast (n t i : ℕ) (h : TargetHeap) (j : ℕ) : Type 0 where
    inside : j < n
    child : (j ≡ 2 * i + 1) ⊎ (j ≡ 2 * i + 2)
    below : less (at h j) t ≡ true
    least : (c : ℕ) → 0 < c → c < n → parent c ≡ i → less (at h c) (at h j) ≡ false

  -- No child of the hole at `i` is less than `t`.
  abbrev NoLess : ℕ → ℕ → ℕ → TargetHeap → Type 0
  NoLess n t i h = (c : ℕ) → 0 < c → c < n → parent c ≡ i → less (at h c) t ≡ false

  sunk-Restores :
      (n t i : ℕ) (h : TargetHeap)
      → n ≤ length h.tg_heap
      → i < n
      → DownInv n (place t i h) i
      → NoLess n t i h
      → Restores less n (place t i h) (place t i h)
  sunk-Restores n t i h l li v s = record {
    order = λ c p q. ground (
      arith,
      v.edges c p q,
      s c p q,
      at-place t i c h (omega arith),
      at-place t i (parent c) h (omega arith),
    );
    knows = v.knows;
    same = Same-refl n (place t i h);
  }

  module _ (o : IsOrder less) where
    sink-DownInv :
        (n t i j : ℕ) (h : TargetHeap)
        → n ≤ length h.tg_heap
        → i < n
        → DownInv n (place t i h) i
        → IsLeast n t i h j
        → DownInv n (moved t i j h) j
    sink-DownInv n t i j h l li v s =
        let lj : j < length h.tg_heap = omega (arith, s.inside) in
        let l' : i < length h.tg_heap = omega arith in
        let was = λ (c : ℕ). at-place t i c h l' in
        let now = λ (c : ℕ). at-moved t i j h l' lj c in
        let up : parent j ≡ i = ground (arith, s.child) in
        record {
          edges = λ c p q r. ground (
            arith,
            was c,
            was (parent c),
            was j,
            was (parent i),
            now c,
            now (parent c),
            v.edges c p q,
            v.bridged j,
            s.least c p q,
            s.inside,
            up,
            o.asym (at h j) t s.below,
          );
          bridged = λ c p q r u.
              ground (arith, was c, was j, now c, now (parent j), v.edges c p q, s.inside, up);
          knows = moved-Knows t i j h l' lj n li s.inside (ground (arith, s.child)) v.knows;
        }

    irrefl : (a : ℕ) → less a a ≡ false
    irrefl a = ground (arith, o.asym a a)

    lesser_child-some :
        (n t top j : ℕ) (h : TargetHeap)
        → 2 * top + 1 < n - 1
        → lesser_child less t (2 * top + 1) h ≡ some j
        → IsLeast n t top h j
    unfolding lesser_child
    lesser_child-some n t top j h l e =
        let i = 2 * top + 1 in
        let c0 = at h i in
        let c1 = at h (i + 1) in
        record {
          inside = ground arith;
          child = ground arith;
          below = ground (arith, o.asym c0 t, o.trans c1 t c0, Bool-cases (less c1 t));
          least = λ c p q r. elim (children c top p r) [
            | inl d ↦
                ground (arith, ap (at h) d, irrefl c0, o.asym c1 c0, o.asym c1 t, o.trans c0 t c1)
            | inr d ↦ ground (arith, ap (at h) d, irrefl c1)
          ];
        }

    lesser_child-none :
        (n t top : ℕ) (h : TargetHeap)
        → 2 * top + 1 < n - 1
        → lesser_child less t (2 * top + 1) h ≡ none
        → NoLess n t top h
    unfolding lesser_child
    lesser_child-none n t top h l e c p q r = elim (children c top p r) [
      | inl d ↦ ground (arith, ap (at h) d)
      | inr d ↦ ground (arith, ap (at h) d)
    ]

    sink_last-Restores :
        (n t top : ℕ) (h : TargetHeap)
        → n ≤ length h.tg_heap
        → h.heap_size ≡ n
        → top < n
        → n - 1 ≤ 2 * top + 1
        → DownInv n (place t top h) top
        → Restores less n (place t top h) (sink_last less t top h)
    unfolding sink_last
    sink_last-Restores n t top h l z li f v =
        let i = 2 * top + 1 in
        elim (Bool-cases ((i == h.heap_size - 1) && less (at h i) t)) [
          | inl b ↦
              let s : IsLeast n t top h i = record {
                inside = ground arith;
                child = inl refl;
                below = ground arith;
                least = λ c p q r. elim (children c top p r) [
                  | inl d ↦ ground (arith, ap (at h) d, irrefl (at h i))
                  | inr d ↦ absurd (ground arith)
                ];
              } in
              let w = sink-DownInv n t top i h l li v s in
              let room : n ≤ length (place (at h i) top h).tg_heap =
                omega (arith, length-set h.tg_heap top (at h i)) in
              rw b (
                Restores-trans less n (place t top h) (moved t top i h) (moved t top i h)
                  (moved-Same t top i h (omega arith) (omega (arith, s.inside)) n li s.inside
                    (omega arith))
                  (sunk-Restores n t i (place (at h i) top h) room s.inside w
                    (λ c p q r. absurd (ground arith))))
          | inr b ↦ rw b (
              sunk-Restores n t top h l li v (λ c p q r. elim (children c top p r) [
                | inl d ↦ ground (arith, ap (at h) d)
                | inr d ↦ absurd (ground arith)
              ]))
        ]

    sink_loop-Restores :
        (fuel n t top : ℕ) (h : TargetHeap)
        → n ≤ length h.tg_heap
        → h.heap_size ≡ n
        → top < n
        → n < top + fuel
        → DownInv n (place t top h) top
        → Restores less n (place t top h) (sink_loop less fuel t top h)
    unfolding sink_loop
    sink_loop-Restores zero n t top h l z li f v = absurd (omega arith)
    sink_loop-Restores (suc fuel) n t top h l z li f v =
        elim (Bool-cases (ltb (2 * top + 1) (h.heap_size - 1))) [
          | inl b ↦
              let inside : 2 * top + 1 < n - 1 = ground arith in
              elim (Option-cases (lesser_child less t (2 * top + 1) h)) [
                | inl e ↦
                    rw (b, e)
                      (sunk-Restores n t top h l li v (lesser_child-none n t top h inside e))
                | inr (j, e) ↦
                    let s = lesser_child-some n t top j h inside e in
                    let room : n ≤ length (place (at h j) top h).tg_heap =
                      omega (arith, length-set h.tg_heap top (at h j)) in
                    rw (b, e)
                      (Restores-trans less n (place t top h) (moved t top j h) _
                        (moved-Same t top j h (omega arith) (omega (arith, s.inside)) n li s.inside
                          (ground (arith, s.child)))
                        (sink_loop-Restores fuel n t j (place (at h j) top h) room z s.inside
                          (ground (arith, s.child)) (sink-DownInv n t top j h l li v s)))
              ]
          | inr b ↦ rw b (sink_last-Restores n t top h l z li (ground arith) v)
        ]

    -- On a heap in which the target at `top` may stand too high, `heapify` restores the order.
    pub heapify-Restores :
        (n top : ℕ) (h : TargetHeap)
        → n ≤ length h.tg_heap
        → h.heap_size ≡ n
        → top < n
        → DownInv n (place (at h top) top h) top
        → Restores less n (place (at h top) top h) (heapify less top h)
    unfolding heapify
    heapify-Restores n top h l z li v =
        sink_loop-Restores (h.heap_size + 1) n (at h top) top h l z li (omega arith) v
