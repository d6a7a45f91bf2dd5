-- ===== src/TargetHeap/Up.antt =====
-- heap_adjust on a heap in which one target may stand too low.
use demo_submodule.Prelude.{
  ℕ, zero, suc, ◌<◌, ◌≤◌, ◌≡◌, ◌≢◌, Bool, true, false, ◌&&◌, ltb, length, length-set, arith,
  Bool-cases, inl, inr,
}
use demo_submodule.TargetHeap.{TargetHeap, at, place, parent, adjust_loop, heap_adjust}
use demo_submodule.TargetHeap.Filled.{
  Knows, Same, Same-refl, Same-trans, at-place, moved, at-moved, moved-Knows, moved-Same,
}

-- `less` is the strict part of a total preorder.
pub record IsOrder (less : ℕ → ℕ → Bool) : Type 0 where
  pub asym : (a b : ℕ) → less a b ≡ true → less b a ≡ false
  pub trans : (a b c : ℕ) → less a b ≡ false → less b c ≡ false → less a c ≡ false

module _ (less : ℕ → ℕ → Bool) where
  -- No target stands below a greater one, among the first `n`.
  abbrev pub IsHeap : ℕ → TargetHeap → Type 0
  IsHeap n h = (c : ℕ) → 0 < c → c < n → less (at h c) (at h (parent c)) ≡ false

  -- The edges past `i`, from its parent to its children, are in order.
  abbrev pub IsBridged : ℕ → TargetHeap → ℕ → Type 0
  IsBridged n h i =
      (c : ℕ) → 0 < c → c < n → parent c ≡ i → 0 < i → less (at h c) (at h (parent i)) ≡ false

  -- Only the edge above `i` may be out of order.
  pub record UpInv (n : ℕ) (h : TargetHeap) (i : ℕ) : Type 0 where
    pub edges : (c : ℕ) → 0 < c → c < n → c ≢ i → less (at h c) (at h (parent c)) ≡ false
    pub bridged : IsBridged n h i
    pub knows : Knows n h

  -- `k` is a heap of the first `n` targets of `h`.
  pub record Restores (n : ℕ) (h k : TargetHeap) : Type 0 where
    pub order : IsHeap n k
    pub knows : Knows n k
    pub same : Same n h k

  pub Restores-trans : (n : ℕ) (h k m : TargetHeap) → Same n h k → Restores n k m → Restores n h m
  Restores-trans n h k m s r = record {
    order = r.order;
    knows = r.knows;
    same = Same-trans n h k m s r.same;
  }

  module _ (o : IsOrder less) where
    rise-UpInv :
        (n t i : ℕ) (h : TargetHeap)
        → n ≤ length h.tg_heap
        → 0 < i
        → i < n
        → UpInv n (place t i h) i
        → less t (at h (parent i)) ≡ true
        → UpInv n (moved t i (parent i) h) (parent i)
    rise-UpInv n t i h l pos li v below =
        let lp : parent i < length h.tg_heap = omega arith in
        let lj : i < length h.tg_heap = omega arith in
        let was = λ (c : ℕ). at-place t i c h lj in
        let now = λ (c : ℕ). at-moved t i (parent i) h lj lp c in
        record {
          edges = λ c p q r. ground (
            arith,
            was c,
            was (parent c),
            was (parent i),
            was i,
            now c,
            now (parent c),
            v.edges c p q,
            v.bridged c p q,
            o.asym t (at h (parent i)) below,
            o.trans (at h c) (at h (parent i)) t,
          );
          bridged = λ c p q r s. ground (
            arith,
            was c,
            was (parent i),
            was (parent (parent i)),
            now c,
            now (parent (parent i)),
            v.edges c p q,
            v.edges (parent i),
            o.trans (at h c) (at h (parent i)) (at h (parent (parent i))),
          );
          knows = moved-Knows t i (parent i) h lj lp n li (omega arith) (omega arith) v.knows;
        }

    settled :
        (n t i : ℕ) (h : TargetHeap)
        → n ≤ length h.tg_heap
        → i < n
        → UpInv n (place t i h) i
        → (ltb 0 i && less t (at h (parent i))) ≡ false
        → Restores n (place t i h) (place t i h)
    settled n t i h l li v b = record {
      order = λ c p q. ground (
        arith,
        v.edges c p q,
        at-place t i c h (omega arith),
        at-place t i (parent c) h (omega arith),
      );
      knows = v.knows;
      same = Same-refl n (place t i h);
    }

    adjust_loop-Restores :
        (fuel n t i : ℕ) (h : TargetHeap)
        → n ≤ length h.tg_heap
        → i < n
        → i ≤ fuel
        → UpInv n (place t i h) i
        → Restores n (place t i h) (adjust_loop less fuel t i h)
    unfolding adjust_loop
    adjust_loop-Restores zero n t i h l li f v = record {
      order = λ c p q. v.edges c p q (omega arith);
      knows = v.knows;
      same = Same-refl n (place t i h);
    }
    adjust_loop-Restores (suc fuel) n t i h l li f v =
        elim (Bool-cases (ltb 0 i && less t (at h (parent i)))) [
          | inl b ↦
              let pos : 0 < i = ground arith in
              let below : less t (at h (parent i)) ≡ true = ground arith in
              let room : n ≤ length (place (at h (parent i)) i h).tg_heap =
                omega (arith, length-set h.tg_heap i (at h (parent i))) in
              rw b (
                Restores-trans n (place t i h) (moved t i (parent i) h) _
                  (moved-Same t i (parent i) h (omega arith) (omega arith) n li (omega arith)
                    (omega arith))
                  (adjust_loop-Restores fuel n t (parent i) (place (at h (parent i)) i h) room
                    (omega arith) (omega arith) (rise-UpInv n t i h l pos li v below)))
          | inr b ↦ rw b (settled n t i h l li v b)
        ]

    -- On a heap in which the target at `i` may stand too low, `heap_adjust` restores the order.
    pub heap_adjust-Restores :
        (n i : ℕ) (h : TargetHeap)
        → n ≤ length h.tg_heap
        → i < n
        → UpInv n (place (at h i) i h) i
        → Restores n (place (at h i) i h) (heap_adjust less i h)
    unfolding heap_adjust
    heap_adjust-Restores n i h l li v = adjust_loop-Restores i n (at h i) i h l li (omega arith) v
