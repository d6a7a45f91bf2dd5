-- ===== src/Series/Cancel.antt =====
-- What a canceled series does when its next task is asked for, and what `dismiss` does.
use mathlib.Core.Path.{subst}
use demo_submodule.Prelude.{
  ℕ, zero, suc, ◌+◌, ◌<◌, ◌≡◌, ◌≢◌, refl, sym, ap, true, false, inl, inr, List, [], ◌∷◌, ◌++◌,
  arith, append-nil, append_assoc, Bool-cases, ==_iff, ◌==◌, if◌then◌else◌, length, All,
}
use demo_submodule.Series.{
  SeriesWork, settle, finish, pop_task, delete_loop, drain_fuel, pop, dismiss_recursive,
}
use demo_submodule.Series.Window.{length-window, distance}
use demo_submodule.Series.Deque.{IsValid, tasks, advance, pop_task_some, pop_task_none}

-- The `last` task, if it is set.
abbrev pub pending : ℕ → List ℕ
pending last = if last == 0 then [] else last ∷ []

-- The tasks in the ring are pointers that are not NULL.
abbrev pub NoNull : List ℕ → Type 0
NoNull = All (λ t. t ≢ 0)

-- The calls of the callback after one more end of the series.
abbrev pub called_once_more : SeriesWork → ℕ
called_once_more s = if s.callback then s.called + 1 else s.called

-- The series has ended, and has deleted the tasks.
pub record Drained (s : SeriesWork) (deletes : List ℕ) (calls : ℕ) : Type 0 where
  pub deleted_tasks : s.deleted_tasks ≡ deletes
  pub called : s.called ≡ calls
  pub ring : tasks s ≡ []
  pub last : s.last ≡ 0

delete_loop_end : (fuel : ℕ) (s : SeriesWork) → delete_loop fuel 0 s ≡ s
unfolding delete_loop
delete_loop_end zero s = refl
delete_loop_end (suc fuel) s = refl

settle_task : (t : ℕ) (s : SeriesWork) → t ≢ 0 → settle t s ≡ (t, s)
unfolding settle
settle_task t s h = ground arith

settle_null : (s : SeriesWork) → settle 0 s ≡ (0, finish s)
unfolding settle
settle_null s = refl

delete_loop_step :
    (fuel task : ℕ) (s : SeriesWork)
    → task ≢ 0
    → delete_loop (suc fuel) task s ≡ (
        let r = pop_task (record s { deleted_tasks = s.deleted_tasks ++ task ∷ [] }) in
        delete_loop fuel r.0 r.1)
unfolding delete_loop
delete_loop_step fuel task s h = ground arith

finish-Drained :
    (s : SeriesWork)
    → tasks s ≡ []
    → s.last ≡ 0
    → Drained (finish s) s.deleted_tasks (called_once_more s)
unfolding finish
finish-Drained s e l = record { deleted_tasks = refl; called = refl; ring = e; last = l }

-- The loop deletes the task at hand, those of the ring in order, and the last one.
delete_loop_lem :
    (fuel : ℕ) (ts : List ℕ) (task : ℕ) (s : SeriesWork)
    → task ≢ 0
    → IsValid s
    → tasks s ≡ ts
    → NoNull ts
    → length ts + (if s.last == 0 then 0 else 1) < fuel
    → Drained
        (delete_loop fuel task s)
        (s.deleted_tasks ++ task ∷ (ts ++ pending s.last))
        (called_once_more s)
delete_loop_lem zero ts task s h v e n f = absurd (omega arith)
delete_loop_lem (suc fuel) (t ∷ ts) task s h v e n f =
    let s1 = record s { deleted_tasks = s.deleted_tasks ++ task ∷ [] } in
    let v1 : IsValid s1 = record { size = v.size; front = v.front; back = v.back } in
    let (p, v', e') = pop_task_some s1 t ts v1 e in
    let ih = delete_loop_lem fuel ts t (advance s1) n.0 v' e' n.1 (omega arith) in
    rw (delete_loop_step fuel task s h, p, settle_task t (advance s1) n.0) (rw append_assoc at ih)
delete_loop_lem (suc fuel) [] task s h v e n f =
    let s1 = record s { deleted_tasks = s.deleted_tasks ++ task ∷ [] } in
    let v1 : IsValid s1 = record { size = v.size; front = v.front; back = v.back } in
    let s2 = record s1 { last = 0 } in
    let v2 : IsValid s2 = record { size = v.size; front = v.front; back = v.back } in
    rw (delete_loop_step fuel task s h, pop_task_none s1 v1 e)
      (elim (Bool-cases (s.last == 0)) [
        | inl l ↦
            subst
              (λ x.
                Drained (delete_loop fuel (settle x s2).0 (settle x s2).1)
                  (s.deleted_tasks ++ task ∷ pending x) (called_once_more s))
              (sym ((==_iff s.last 0).0 l))
              (rw (settle_null s2, delete_loop_end fuel (finish s2)) (finish-Drained s2 e refl))
        | inr l ↦
            let ne : s.last ≢ 0 = ground arith in
            let ih = delete_loop_lem fuel [] s.last s2 ne v2 e tt (ground arith) in
            rw (settle_task s.last s2 ne, l) (rw append_assoc at ih)
      ])

pop_canceled :
    (s : SeriesWork)
    → s.canceled ≡ true
    → pop s ≡ (0, delete_loop (drain_fuel s) (pop_task s).0 (pop_task s).1)
unfolding pop
pop_canceled s c = simp c

length-tasks-lt : (s : SeriesWork) → IsValid s → length (tasks s) < s.queue_size
length-tasks-lt s v =
    let n : ℕ = distance s.queue_size s.front s.back in
    let h : n < s.queue_size = ground arith in rw (length-window s.queue s.queue_size s.front n) h

Drained-by_fuel :
    (s : SeriesWork) (ts : List ℕ)
    → IsValid s
    → tasks s ≡ ts
    → NoNull ts
    → Drained
        (delete_loop (drain_fuel s) (pop_task s).0 (pop_task s).1)
        (s.deleted_tasks ++ (ts ++ pending s.last))
        (called_once_more s)
Drained-by_fuel s (t ∷ ts) v e n =
    let (p, v', e') = pop_task_some s t ts v e in
    rw (p, settle_task t (advance s) n.0)
      (delete_loop_lem (drain_fuel s) ts t (advance s) n.0 v' e' n.1
        (ground (arith, ap length e, length-tasks-lt s)))
Drained-by_fuel s [] v e n =
    let s2 = record s { last = 0 } in
    let v2 : IsValid s2 = record { size = v.size; front = v.front; back = v.back } in
    rw (pop_task_none s v e) (elim (Bool-cases (s.last == 0)) [
      | inl l ↦
          subst
            (λ x.
              Drained (delete_loop (drain_fuel s) (settle x s2).0 (settle x s2).1)
                (s.deleted_tasks ++ pending x) (called_once_more s))
            (sym ((==_iff s.last 0).0 l))
            (rw (settle_null s2, delete_loop_end (drain_fuel s) (finish s2), append-nil)
              (finish-Drained s2 e refl))
      | inr l ↦
          let ne : s.last ≢ 0 = ground arith in
          let end = delete_loop_lem (drain_fuel s) [] s.last s2 ne v2 e tt (ground arith) in
          rw (settle_task s.last s2 ne, l) end
    ])

-- Asking a canceled series for its next task returns NULL; it deletes every task that waits, in
-- order, then the last one if there is one, and calls the callback exactly once if it is set.
pub pop-Drained :
    (s : SeriesWork)
    → IsValid s
    → NoNull (tasks s)
    → s.canceled ≡ true
    → ((pop s).0 ≡ 0)
      × Drained (pop s).1 (s.deleted_tasks ++ (tasks s ++ pending s.last)) (called_once_more s)
pop-Drained s v n c = rw (pop_canceled s c) (refl, Drained-by_fuel s (tasks s) v refl n)

-- Dismissing a series that was never started deletes the first task and all the others, and calls
-- no callback.
pub dismiss_recursive-Drained :
    (s : SeriesWork)
    → IsValid s
    → NoNull (tasks s)
    → s.first ≢ 0
    → Drained
        (dismiss_recursive s)
        (s.deleted_tasks ++ s.first ∷ (tasks s ++ pending s.last))
        s.called
unfolding dismiss_recursive
dismiss_recursive-Drained s v n f =
    let s' = record s { in_parallel = false; callback = false } in
    delete_loop_lem (drain_fuel s) (tasks s) s.first s' f
      (record { size = v.size; front = v.front; back = v.back }) refl n
      (ground (arith, length-tasks-lt s v))
