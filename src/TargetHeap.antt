-- ===== src/TargetHeap.antt =====
-- The heap of a CommSchedGroup of workflow-step-by-step/src/kernel/CommScheduler.cc: heap_adjust,
-- heapify, heap_insert and heap_remove. A target (a `CommSchedTarget *`) is a number. Every target
-- has a field `index`; here it is a function of the target. The loops carry a target and leave a
-- hole in the array, which they fill at the end. `less a b` is `target_cmp(a, b) < 0`.
pub mod Filled
pub mod Up
pub mod Down
pub mod Keeps
pub mod Insert
pub mod Remove
use demo_submodule.Prelude.{
  ℕ, zero, suc, ◌+◌, ◌-◌, ◌*◌, ◌/◌, Bool, true, false, ◌&&◌, Option, none, some, List, ◌++◌, ltb,
  ◌==◌, if◌then◌else◌, get_or, set, replicate, update,
}

pub record TargetHeap : Type 0 where
  pub tg_heap : List ℕ
  pub index : ℕ → ℕ
  pub heap_size : ℕ
  pub heap_buf_size : ℕ

-- tg_heap[i]
abbrev pub at : TargetHeap → ℕ → ℕ
at h i = get_or h.tg_heap i 0

-- `tg_heap[i] = target; target->index = i`
abbrev pub place : ℕ → ℕ → TargetHeap → TargetHeap
place target i h = record h { tg_heap = set h.tg_heap i target; index = update h.index target i }

abbrev pub parent : ℕ → ℕ
parent i = (i - 1) / 2

-- `heap_size == heap_buf_size`: the array doubles, if `realloc` grants it.
pub grow : TargetHeap → TargetHeap
grow h = record h {
  tg_heap = h.tg_heap ++ replicate h.heap_buf_size 0;
  heap_buf_size = 2 * h.heap_buf_size;
}

module _ (less : ℕ → ℕ → Bool) where
  -- The loop of `heap_adjust`; the index bounds its rounds.
  pub adjust_loop : ℕ → ℕ → ℕ → TargetHeap → TargetHeap
  adjust_loop zero target index h = place target index h
  adjust_loop (suc fuel) target index h =
      let above = at h (parent index) in
      let rise = adjust_loop fuel target (parent index) (place above index h) in
      if ltb 0 index && less target above then rise else place target index h

  pub heap_adjust : ℕ → TargetHeap → TargetHeap
  heap_adjust index h = adjust_loop index (at h index) index h

  -- The child that takes the place of the target above it, of `child[0]` and `child[1]`.
  pub lesser_child : ℕ → ℕ → TargetHeap → Option ℕ
  lesser_child target i h =
      if less (at h i) target
      then (if less (at h (i + 1)) (at h i) then some (i + 1) else some i)
      else if less (at h (i + 1)) target
      then some (i + 1)
      else none

  -- What follows the loop: a last child that has no sibling.
  pub sink_last : ℕ → ℕ → TargetHeap → TargetHeap
  sink_last target top h =
      let i = 2 * top + 1 in
      if (i == h.heap_size - 1) && less (at h i) target
      then place target i (place (at h i) top h)
      else place target top h

  -- The loop of `heapify`; the size bounds its rounds.
  pub sink_loop : ℕ → ℕ → ℕ → TargetHeap → TargetHeap
  sink_loop zero target top h = place target top h
  sink_loop (suc fuel) target top h =
      let i = 2 * top + 1 in
      let loop : TargetHeap = elim (lesser_child target i h) [
        | none ↦ place target top h
        | some j ↦ sink_loop fuel target j (place (at h j) top h)
      ] in
      if ltb i (h.heap_size - 1) then loop else sink_last target top h

  pub heapify : ℕ → TargetHeap → TargetHeap
  heapify top h = sink_loop (h.heap_size + 1) (at h top) top h

  pub append_target : ℕ → TargetHeap → TargetHeap
  append_target target h =
      let placed = heap_adjust h.heap_size (place target h.heap_size h) in
      record placed { heap_size = h.heap_size + 1 }

  -- heap_insert, or `none` for the return value -1; `granted` is the outcome of `realloc`.
  pub heap_insert : Bool → ℕ → TargetHeap → Option TargetHeap
  heap_insert granted target h =
      if h.heap_size == h.heap_buf_size
      then (if granted then some (append_target target (grow h)) else none)
      else some (append_target target h)

  -- The last target takes the place of the one that leaves.
  pub refill : ℕ → TargetHeap → TargetHeap
  refill i h =
      let target = at h h.heap_size in
      let risen = heap_adjust i (place target i h) in heapify (risen.index target) risen

  pub heap_remove : ℕ → TargetHeap → TargetHeap
  heap_remove i h =
      let h' = record h { heap_size = h.heap_size - 1 } in
      if i == h'.heap_size then h' else refill i h'
