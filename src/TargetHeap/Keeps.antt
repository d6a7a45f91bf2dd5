-- ===== src/TargetHeap/Keeps.antt =====
-- What the operations on the heap keep: after a change of one target's load, after an insertion.
use demo_submodule.Prelude.{
  ℕ, ◌<◌, ◌≤◌, ◌≡◌, ◌≢◌, refl, sym, ap, ◌∙◌, Bool, false, length, length-set, arith, sum_upto_ext,
}
use demo_submodule.TargetHeap.{TargetHeap, at, place, parent, heap_adjust, heapify}
use demo_submodule.TargetHeap.Filled.{Knows, Same, Same-trans, at-place}
use demo_submodule.TargetHeap.Up.{IsOrder, IsHeap, UpInv, Restores, heap_adjust-Restores}
use demo_submodule.TargetHeap.Down.{DownInv, heapify-Restores}

-- A heap between two operations.
pub record IsValid (less : ℕ → ℕ → Bool) (h : TargetHeap) : Type 0 where
  pub order : IsHeap less h.heap_size h
  pub knows : Knows h.heap_size h
  pub room : length h.tg_heap ≡ h.heap_buf_size
  pub fits : h.heap_size ≤ h.heap_buf_size
  pub some_room : 0 < h.heap_buf_size

-- To put a target where it is changes nothing.
pub at-place_self :
    (i c : ℕ) (h : TargetHeap) → i < length h.tg_heap → at (place (at h i) i h) c ≡ at h c
at-place_self i c h l = ground (arith, at-place (at h i) i c h l, ap (at h))

pub place_self-Knows :
    (n i : ℕ) (h : TargetHeap)
    → i < length h.tg_heap
    → i < n
    → Knows n h
    → Knows n (place (at h i) i h)
place_self-Knows n i h l li k c lc = ground (arith, at-place_self i c h l, k c lc, k i li)

pub place_self-Same :
    (n i : ℕ) (h : TargetHeap) → i < length h.tg_heap → Same n h (place (at h i) i h)
place_self-Same n i h l = record {
  sums = λ f. sum_upto_ext n _ _ (λ c lc. ap f (at-place_self i c h l));
  covers = λ c lc. (c, lc, at-place_self i c h l);
  size = refl;
  buf_size = refl;
  room = length-set h.tg_heap i (at h i);
}

-- A heap that was restored is valid.
pub Restores-IsValid :
    (less : ℕ → ℕ → Bool) (h k : TargetHeap)
    → length h.tg_heap ≡ h.heap_buf_size
    → h.heap_size ≤ h.heap_buf_size
    → 0 < h.heap_buf_size
    → Restores less h.heap_size h k
    → IsValid less k
Restores-IsValid less h k room fits pos r = record {
  order = λ c p q. r.order c p (omega (arith, r.same.size));
  knows = λ c q. r.knows c (omega (arith, r.same.size));
  room = r.same.room ∙ room ∙ sym r.same.buf_size;
  fits = omega (arith, r.same.size, r.same.buf_size);
  some_room = omega (arith, r.same.buf_size);
}

-- The order `now` differs from `before` in the target `t` alone.
pub record OnlyAt (t : ℕ) (before now : ℕ → ℕ → Bool) : Type 0 where
  pub others : (a b : ℕ) → a ≢ t → b ≢ t → now a b ≡ before a b

module _ (before now : ℕ → ℕ → Bool) (ob : IsOrder before) (on : IsOrder now) (i : ℕ)
    (h : TargetHeap) (v : IsValid before h) (li : i < h.heap_size) where
  -- A target that became greater is put right by `heapify`.
  pub heapify-IsValid :
      OnlyAt (at h i) before now
      → ((a : ℕ) → before (at h i) a ≡ false → now (at h i) a ≡ false)
      → IsValid now (heapify now i h) × Same h.heap_size h (heapify now i h)
  heapify-IsValid only grew =
      let n = h.heap_size in
      let l : i < length h.tg_heap = omega (arith, v.room, v.fits) in
      let self = λ (c : ℕ). at-place_self i c h l in
      let w : DownInv now n (place (at h i) i h) i = record {
        edges = λ c p q r. ground (
          arith,
          self c,
          self (parent c),
          v.order c p q,
          v.knows c q,
          v.knows (parent c),
          v.knows i li,
          grew (at h (parent c)),
          only.others (at h c) (at h (parent c)),
        );
        bridged = λ c p q r u. ground (
          arith,
          self c,
          self (parent i),
          v.order c p q,
          v.order i u li,
          v.knows c q,
          v.knows (parent i),
          v.knows i li,
          ob.trans (at h c) (at h i) (at h (parent i)),
          only.others (at h c) (at h (parent i)),
        );
        knows = place_self-Knows n i h l li v.knows;
      } in
      let r = heapify-Restores now on n i h (omega (arith, v.room, v.fits)) refl li w in
      (
        Restores-IsValid now (place (at h i) i h) _ (length-set h.tg_heap i (at h i) ∙ v.room)
            v.fits v.some_room r,
        Same-trans n h (place (at h i) i h) _ (place_self-Same n i h l) r.same,
      )

  -- A target that became less is put right by `heap_adjust`.
  pub heap_adjust-IsValid :
      OnlyAt (at h i) before now
      → ((a : ℕ) → before a (at h i) ≡ false → now a (at h i) ≡ false)
      → IsValid now (heap_adjust now i h) × Same h.heap_size h (heap_adjust now i h)
  heap_adjust-IsValid only shrank =
      let n = h.heap_size in
      let l : i < length h.tg_heap = omega (arith, v.room, v.fits) in
      let self = λ (c : ℕ). at-place_self i c h l in
      let w : UpInv now n (place (at h i) i h) i = record {
        edges = λ c p q r. ground (
          arith,
          self c,
          self (parent c),
          v.order c p q,
          v.knows c q,
          v.knows (parent c),
          v.knows i li,
          shrank (at h c),
          only.others (at h c) (at h (parent c)),
          ap (at h),
        );
        bridged = λ c p q r u. ground (
          arith,
          self c,
          self (parent i),
          v.order c p q,
          v.order i u li,
          v.knows c q,
          v.knows (parent i),
          v.knows i li,
          ob.trans (at h c) (at h i) (at h (parent i)),
          only.others (at h c) (at h (parent i)),
        );
        knows = place_self-Knows n i h l li v.knows;
      } in
      let r = heap_adjust-Restores now on n i h (omega (arith, v.room, v.fits)) li w in
      (
        Restores-IsValid now (place (at h i) i h) _ (length-set h.tg_heap i (at h i) ∙ v.room)
            v.fits v.some_room r,
        Same-trans n h (place (at h i) i h) _ (place_self-Same n i h l) r.same,
      )
