-- ===== src/TargetHeap/Insert.antt =====
-- What heap_insert comes to.
use mathlib.Core.Path.{subst}
use demo_submodule.Prelude.{
  ℕ, ◌+◌, ◌<◌, ◌≤◌, ◌≡◌, ◌≢◌, refl, sym, ap, ◌∙◌, Bool, true, false, none, some, ◌==◌,
  if◌then◌else◌, length, length-set, length-append, length-replicate, get_or-append, arith,
  Bool-cases, inl, inr, replicate, sum_upto_ext, sum_upto-add_one,
}
use demo_submodule.TargetHeap.{TargetHeap, at, place, parent, grow, append_target, heap_insert}
use demo_submodule.TargetHeap.Filled.{Knows, total, at-place}
use demo_submodule.TargetHeap.Up.{IsOrder, UpInv, heap_adjust-Restores}
use demo_submodule.TargetHeap.Keeps.{IsValid, place_self-Knows, at-place_self, place_self-Same}

-- The heap `k` is `h` with the target `t` added.
pub record Adds (t : ℕ) (h k : TargetHeap) : Type 0 where
  pub size : k.heap_size ≡ h.heap_size + 1
  pub sums : (f : ℕ → ℕ) → total k.heap_size f k ≡ total h.heap_size f h + f t
  pub covers :
      (c : ℕ)
      → c < k.heap_size
      → (d : ℕ) × (d ≤ h.heap_size) × (at k c ≡ (if d == h.heap_size then t else at h d))

at-grow :
    (less : ℕ → ℕ → Bool) (h : TargetHeap)
    → IsValid less h
    → (c : ℕ) → c < h.heap_size
    → at (grow h) c ≡ at h c
unfolding grow
at-grow less h v c l =
    get_or-append h.tg_heap (replicate h.heap_buf_size 0) c 0 (omega (arith, v.room, v.fits))

grow-IsValid : (less : ℕ → ℕ → Bool) (h : TargetHeap) → IsValid less h → IsValid less (grow h)
unfolding grow
grow-IsValid less h v =
    let old = λ (c : ℕ) (l : c < h.heap_size).
      get_or-append h.tg_heap (replicate h.heap_buf_size 0) c 0 (omega (arith, v.room, v.fits)) in
    record {
      order = λ c p q. rw (old c q, old (parent c) (omega arith)) (v.order c p q);
      knows = λ c q. rw (old c q) (v.knows c q);
      room = omega (
        arith,
        length-append h.tg_heap (replicate h.heap_buf_size 0),
        length-replicate {A = ℕ} h.heap_buf_size 0,
        v.room,
      );
      fits = omega (arith, v.fits);
      some_room = omega (arith, v.some_room);
    }

grow-room :
    {less : ℕ → ℕ → Bool} (h : TargetHeap)
    → IsValid less h
    → (grow h).heap_size < (grow h).heap_buf_size
unfolding grow
grow-room h v = omega (arith, v.fits, v.some_room)

grown-Adds :
    (less : ℕ → ℕ → Bool) (t : ℕ) (h k : TargetHeap)
    → IsValid less h
    → Adds t (grow h) k
    → Adds t h k
unfolding grow
grown-Adds less t h k v a = record {
  size = a.size;
  sums = λ f.
      a.sums f
      ∙ ap (λ (m : ℕ). m + f t)
          (sum_upto_ext h.heap_size (λ c. f (at (grow h) c)) (λ c. f (at h c))
            (λ c l. ap f (at-grow less h v c l)));
  covers = λ c q.
      let (d, l, e) = a.covers c q in
      (
        d,
        l,
        elim (Bool-cases (d == h.heap_size)) [
          | inl z ↦ ground (arith, e)
          | inr z ↦ ground (arith, e, at-grow less h v d (ground arith))
        ],
      );
}

module _ (less : ℕ → ℕ → Bool) (o : IsOrder less) (t : ℕ) where
  abbrev IsNew : TargetHeap → Type 0
  IsNew h = (c : ℕ) → c < h.heap_size → at h c ≢ t

  append_target-IsValid :
      (h : TargetHeap)
      → IsValid less h
      → h.heap_size < h.heap_buf_size
      → IsNew h
      → IsValid less (append_target less t h) × Adds t h (append_target less t h)
  unfolding append_target
  append_target-IsValid h v l new =
      let n = h.heap_size in
      let k = place t n h in
      let ln : n < length h.tg_heap = omega (arith, v.room) in
      let lk : n < length k.tg_heap = omega (arith, length-set h.tg_heap n t, ln) in
      let was = λ (c : ℕ). at-place t n c h ln in
      let self = λ (c : ℕ). at-place_self n c k lk in
      let known : Knows (n + 1) k = λ c q. ground (arith, was c, v.knows c, new c) in
      let w : UpInv less (n + 1) (place (at k n) n k) n = record {
        edges =
            λ c p q r. ground (arith, self c, self (parent c), was c, was (parent c), v.order c p);
        bridged = λ c p q r u. absurd (omega arith);
        knows = place_self-Knows (n + 1) n k lk (omega arith) known;
      } in
      let r = heap_adjust-Restores less o (n + 1) n k (omega arith) (omega arith) w in
      let s = place_self-Same (n + 1) n k lk in
      (
        record {
          order = r.order;
          knows = r.knows;
          room = r.same.room ∙ s.room ∙ length-set h.tg_heap n t ∙ v.room ∙ sym (r.same.buf_size);
          fits = omega (arith, r.same.buf_size);
          some_room = omega (arith, r.same.buf_size, v.some_room);
        },
        record {
          size = refl;
          sums = λ f.
              let before =
                sum_upto_ext n (λ c. f (at k c)) (λ c. f (at h c))
                  (λ c q. ap f (ground (arith, was c))) in
              let last : f (at k n) ≡ f t = ap f (ground (arith, was n)) in
              omega (
                arith,
                r.same.sums f,
                s.sums f,
                sum_upto-add_one n (λ c. f (at k c)),
                before,
                last,
              );
          covers = λ c q.
              let (d, ld, e) = r.same.covers c q in
              (d, omega arith, ground (arith, e, self d, was d, ap (at h)));
        },
      )

  grow-IsNew : (h : TargetHeap) → IsValid less h → IsNew h → IsNew (grow h)
  unfolding grow
  grow-IsNew h v new c l = ground (arith, new c l, at-grow less h v c l)

  appended :
      (h k : TargetHeap)
      → IsValid less h
      → IsNew h
      → h.heap_size ≢ h.heap_buf_size
      → append_target less t h ≡ k
      → IsValid less k × Adds t h k
  appended h k v new room e =
      subst (λ (m : TargetHeap). IsValid less m × Adds t h m) e
        (append_target-IsValid h v (omega (arith, v.fits)) new)

  -- `heap_insert` adds the target to a valid heap that does not hold it, unless the array is full
  -- and cannot be made larger.
  pub heap_insert-IsValid :
      (granted : Bool) (h k : TargetHeap)
      → IsValid less h
      → IsNew h
      → heap_insert less granted t h ≡ some k
      → IsValid less k × Adds t h k
  unfolding heap_insert
  heap_insert-IsValid true h k v new e = elim (Bool-cases (h.heap_size == h.heap_buf_size)) [
    | inl full ↦
        let same : append_target less t (grow h) ≡ k = ground arith in
        let (w, a) =
          append_target-IsValid (grow h) (grow-IsValid less h v) (grow-room h v)
            (grow-IsNew h v new) in
        subst (λ (m : TargetHeap). IsValid less m × Adds t h m) same (w, grown-Adds less t h _ v a)
    | inr room ↦ appended h k v new (ground arith) (ground arith)
  ]
  heap_insert-IsValid false h k v new e = elim (Bool-cases (h.heap_size == h.heap_buf_size)) [
    | inl full ↦ absurd (ground arith)
    | inr room ↦ appended h k v new (ground arith) (ground arith)
  ]

-- `heap_insert` fails only if the array is full and cannot be made larger.
pub heap_insert-none :
    (less : ℕ → ℕ → Bool) (granted : Bool) (t : ℕ) (h : TargetHeap)
    → heap_insert less granted t h ≡ none
    → (granted ≡ false) × (h.heap_size ≡ h.heap_buf_size)
unfolding heap_insert
heap_insert-none less true t h e = absurd (ground arith)
heap_insert-none less false t h e = (refl, ground arith)
