-- ===== src/Series/Deque.antt =====
-- The ring of a SeriesWork as a double-ended queue.
use mathlib.Core.Path.{ap₂}
use demo_submodule.Prelude.{
  ℕ, suc, ◌<◌, ◌≡◌, ◌≢◌, refl, ap, ◌∙◌, inl, inr, List, [], ◌∷◌, ◌++◌, arith, Bool-cases, ==_iff,
  ◌==◌, length, get_or, set, length-set, get_or-set_self,
}
use demo_submodule.Series.{
  SeriesWork, next, prev, expand_if_full, push_front, push_back, pop_task, settle,
}
use demo_submodule.Series.Window.{window, distance, window-set_ne, window-snoc}
use demo_submodule.Series.Expand.{ring, ring-expand_queue, length-expand_queue, expand_queue_lem}

pub record IsValid (s : SeriesWork) : Type 0 where
  pub size : length s.queue ≡ s.queue_size
  pub front : s.front < s.queue_size
  pub back : s.back < s.queue_size

-- The tasks that wait in the ring, the next one first.
abbrev pub tasks : SeriesWork → List ℕ
tasks s = window s.queue s.queue_size s.front (distance s.queue_size s.front s.back)

-- The test after a write: if the write filled the ring, the ring holds the items.
expand_if_full_lem :
    (s : SeriesWork) (items : List ℕ)
    → IsValid s
    → (s.front ≡ s.back → ring s ≡ items)
    → (s.front ≢ s.back → tasks s ≡ items)
    → IsValid (expand_if_full s) × (tasks (expand_if_full s) ≡ items)
unfolding expand_if_full
expand_if_full_lem s items v full part = elim (Bool-cases (s.front == s.back)) [
  | inl e ↦
      let same : s.front ≡ s.back = (==_iff s.front s.back).0 e in
      let (size, front, back) = expand_queue_lem s v.front same in
      rw e (
        record {
          size = length-expand_queue s v.front same;
          front = omega arith;
          back = omega arith;
        },
        ring-expand_queue s v.front same ∙ full same,
      )
  | inr e ↦ rw e (v, part (ground arith))
]

-- Appending puts the task behind those that wait, and keeps the ring valid.
pub tasks-push_back :
    (task : ℕ) (s : SeriesWork)
    → IsValid s
    → IsValid (push_back task s) × (tasks (push_back task s) ≡ tasks s ++ task ∷ [])
unfolding push_back
tasks-push_back task s v =
    expand_if_full_lem s' (tasks s ++ task ∷ []) valid (λ e. full e ∙ written)
      (λ ne. part ne ∙ written)
  where
    q : List ℕ
    q = set s.queue s.back task

    s' : SeriesWork
    s' = record s { queue = q; back = next s.queue_size s.back }

    valid : IsValid s'
    valid = record {
      size = length-set s.queue s.back task ∙ v.size;
      front = v.front;
      back = ground arith;
    }

    k : ℕ
    k = distance s.queue_size s.front s.back

    written : window q s.queue_size s.front (suc k) ≡ tasks s ++ task ∷ []
    written =
        window-snoc q s.queue_size s.front s.back k v.front v.back refl
        ∙ ap₂ (λ l t. l ++ t ∷ [])
            (window-set_ne s.queue s.queue_size s.front s.back task k v.front v.back (omega arith))
            (get_or-set_self s.queue s.back task 0 (omega (arith, v.size, v.back)))

    full : s.front ≡ s'.back → ring s' ≡ window q s.queue_size s.front (suc k)
    full e = ap (window q s.queue_size s.front) (ground arith)

    part : s.front ≢ s'.back → tasks s' ≡ window q s.queue_size s.front (suc k)
    part ne = ap (window q s.queue_size s.front) (ground arith)

-- Pushing in front puts the task before those that wait, and keeps the ring valid.
pub tasks-push_front :
    (task : ℕ) (s : SeriesWork)
    → IsValid s
    → IsValid (push_front task s) × (tasks (push_front task s) ≡ task ∷ tasks s)
unfolding push_front
tasks-push_front task s v =
    expand_if_full_lem s' (task ∷ tasks s) valid (λ e. full e ∙ written) (λ ne. part ne ∙ written)
  where
    f : ℕ
    f = prev s.queue_size s.front

    q : List ℕ
    q = set s.queue f task

    s' : SeriesWork
    s' = record s { front = f; queue = q }

    valid : IsValid s'
    valid = record {
      size = length-set s.queue f task ∙ v.size;
      front = ground arith;
      back = v.back;
    }

    k : ℕ
    k = distance s.queue_size s.front s.back

    written : window q s.queue_size f (suc k) ≡ task ∷ tasks s
    written =
        unfold window in
        ap₂ (◌∷◌) (get_or-set_self s.queue f task 0 (ground (arith, v.size))) (
          ap (λ i. window q s.queue_size i k) (ground arith)
          ∙ window-set_ne s.queue s.queue_size s.front f task k v.front (ground arith)
              (ground arith))

    full : f ≡ s.back → ring s' ≡ window q s.queue_size f (suc k)
    full e = ap (window q s.queue_size f) (ground arith)

    part : f ≢ s.back → tasks s' ≡ window q s.queue_size f (suc k)
    part ne = ap (window q s.queue_size f) (ground arith)

-- The next task, taken off the ring.
abbrev pub advance : SeriesWork → SeriesWork
advance s = record s { front = next s.queue_size s.front }

tasks-advance :
    (s : SeriesWork)
    → IsValid s
    → s.front ≢ s.back
    → IsValid (advance s) × (tasks s ≡ get_or s.queue s.front 0 ∷ tasks (advance s))
unfolding window
tasks-advance s v ne = (
  record { size = v.size; front = ground arith; back = v.back },
  ap (window s.queue s.queue_size s.front) (e) ∙ refl,
)
  where
    e :
        distance s.queue_size s.front s.back
        ≡ suc (distance s.queue_size (next s.queue_size s.front) s.back)
    e = ground arith

tasks_at_end : (s : SeriesWork) → s.front ≡ s.back → tasks s ≡ []
unfolding window
tasks_at_end s e =
    let none_left : distance s.queue_size s.front s.back ≡ 0 = ground arith in
    ap (window s.queue s.queue_size s.front) none_left

-- What `pop_task` does on a ring that has tasks left, and on one that has none.
pub pop_task_some :
    (s : SeriesWork) (t : ℕ) (ts : List ℕ)
    → IsValid s
    → tasks s ≡ t ∷ ts
    → (pop_task s ≡ settle t (advance s)) × IsValid (advance s) × (tasks (advance s) ≡ ts)
unfolding pop_task
pop_task_some s t ts v e = elim (Bool-cases (s.front == s.back)) [
  | inl at_end ↦ cc (tasks_at_end s ((==_iff s.front s.back).0 at_end))
  | inr more ↦
      let (v', e') = tasks-advance s v (ground arith) in
      let same : get_or s.queue s.front 0 ≡ t = cc e' in (rw (more, same) refl, v', cc e')
]

pub pop_task_none :
    (s : SeriesWork) → IsValid s → tasks s ≡ [] → pop_task s ≡ settle s.last (record s { last = 0 })
unfolding pop_task
pop_task_none s v e = elim (Bool-cases (s.front == s.back)) [
  | inl at_end ↦ rw at_end refl
  | inr more ↦ cc ((tasks-advance s v (ground arith)).1)
]
