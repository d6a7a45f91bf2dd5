-- ===== src/Parallel/Ends.antt =====
-- When a parallel task comes to its end.
use demo_submodule.Prelude.{
  ℕ, zero, suc, ◌+◌, ◌<◌, ◌≡◌, ◌↔◌, refl, sym, ap, ◌∙◌, Bool, true, false, Option, none, some, List,
  [], ◌∷◌, ◌++◌, append-nil, append_assoc, ◌==◌, if◌then◌else◌, update, length, count, erase, arith,
  Bool-cases, inl, inr,
}
use demo_submodule.Parallel.{
  Tasks, round, sub_and_fetch, go_on, subtask_done, open_parallel, start_subtask, start_loop,
  dispatch,
}
use demo_submodule.Parallel.Running.{
  Running, begun, NextIdle, after_round, Step, completes, rounds, opens, starts, Steps, stays,
  then_steps,
}
use demo_submodule.Parallel.Countdown.{is_kid, kids, IsCounting}
use demo_submodule.Parallel.Countdown.Round.{
  left, parent_opened, fetched, leave-IsCounting, next-IsCounting,
}
use demo_submodule.Parallel.Countdown.Dispatch.{
  completes-IsCounting, opens-IsCounting, starts-IsCounting,
}

rounds-IsCounting :
    (r : Running) (next : Option ℕ) (t : ℕ)
    → 0 < count t r.doing
    → NextIdle next r
    → IsCounting r
    → IsCounting (after_round next t r)
rounds-IsCounting r none t h i v = leave-IsCounting r t (r.tasks.parent t) h refl v
rounds-IsCounting r (some c) t h i v = next-IsCounting r t c h i v

Step-IsCounting : (p q : Running) → Step p q → IsCounting p → IsCounting q
Step-IsCounting _ _ (completes r t h o) v = completes-IsCounting r t h o v
Step-IsCounting _ _ (rounds r next t h i) v = rounds-IsCounting r next t h i v
Step-IsCounting _ _ (opens r task h o l) v = opens-IsCounting r task h o l v
Step-IsCounting _ _ (starts r task subtask rest e i) v = starts-IsCounting r task subtask rest e i v

Steps-IsCounting : (p q : Running) → Steps p q → IsCounting p → IsCounting q
Steps-IsCounting _ _ (stays r) v = v
Steps-IsCounting _ _ (then_steps p q r first rest) v =
    Steps-IsCounting q r rest (Step-IsCounting p q first v)

-- Whatever the threads do after one task without a parent was dispatched, in any order, the count of
-- each parallel task that has set it is the number of its subtasks, or of the tasks that came after
-- them, that are not at their end or are still to be dispatched; it is not 0, and the parallel task
-- runs; and no task runs twice at a time.
pub begun-IsCounting :
    (s : Tasks) (root : ℕ) (r : Running)
    → s.parent root ≡ none
    → Steps (begun s root) r
    → IsCounting r
begun-IsCounting s root r e steps =
    let no_kid : (p : ℕ) → is_kid (s.parent root) p ≡ false = λ p. rw e refl in
    Steps-IsCounting (begun s root) r steps (record {
      once = λ t. ground arith;
      counted = λ p o. absurd (ground (arith, o));
      closed = λ p o. ground (arith, no_kid p);
      runs = λ p o. absurd (ground (arith, o));
    })

-- How many tasks of a parallel task are not at their end when `t` is, or are still to be dispatched.
abbrev pub others : (parallel t : ℕ) → Running → ℕ
others parallel t r =
    kids r.tasks.parent parallel r.active
    + kids r.tasks.parent parallel (erase t r.doing)
    + length (r.pending parallel)

up_iff :
    (b : Bool) (q : ℕ) (n : ℕ) → b ≡ (n == 0) → ((if b then some q else none) ≡ some q) ↔ (n ≡ 0)
up_iff true q n e = (λ _. ground (arith, e), λ _. refl)
up_iff false q n e = (λ k. absurd (ground (arith, k)), λ k. absurd (ground (arith, e, k)))

-- The round of a task at its end, which no other comes after, goes on with its parallel task exactly
-- if no other subtask of it, nor a task that came after one, runs or is still to be dispatched.
pub round-up :
    (r : Running) (t parallel : ℕ)
    → IsCounting r
    → 0 < count t r.doing
    → r.tasks.parent t ≡ some parallel
    → ((round none t r.tasks).0 ≡ some parallel) ↔ (others parallel t r ≡ 0)
unfolding round
round-up r t q v h e =
    let counted = v.counted q (parent_opened r t q h e v) in
    let less = left r t q h e v q in
    let value = fetched r t q h e v in
    simp e (
      up_iff (sub_and_fetch (r.tasks.nleft q) == 0) q (others q t r)
        (ap (λ (n : ℕ). n == 0) (ground (arith, counted, less, value))))

-- A round is the last, or goes on with the parent.
go_on-round :
    (again : ℕ → Tasks → Option Tasks) (next o : Option ℕ) (cur : ℕ) (s : Tasks)
    → s.parent cur ≡ o
    → ((p : ℕ) (s' : Tasks)
        → s.parent cur ≡ some p
        → s'.parent ≡ s.parent
        → (s2 : Tasks) × (again p s' ≡ some s2))
    → (s' : Tasks) × (go_on again (round next cur s) ≡ some s')
unfolding round
go_on-round again (some next) o cur s e g = (_, refl)
go_on-round again none none cur s e g = simp e (s, refl)
go_on-round again none (some p) cur s e g =
    let s' = record s { nleft = update s.nleft p (sub_and_fetch (s.nleft p)) } in
    elim (Bool-cases (sub_and_fetch (s.nleft p) == 0)) [
      | inl k ↦ simp (e, k) (g p s' e refl)
      | inr k ↦ simp (e, k) (s', refl)
    ]

-- subtask_done ends within as many rounds as parallel tasks stand above each other.
pub subtask_done-ends :
    (done : ℕ → Option ℕ) (rank : ℕ → ℕ) (fuel cur : ℕ) (s : Tasks)
    → ((t p : ℕ) → s.parent t ≡ some p → rank p < rank t)
    → rank cur < fuel
    → (s' : Tasks) × (subtask_done done fuel cur s ≡ some s')
unfolding subtask_done
subtask_done-ends done rank zero cur s h l = absurd (omega (arith, l))
subtask_done-ends done rank (suc fuel) cur s h l =
    go_on-round (subtask_done done fuel) (done cur) (s.parent cur) cur s refl (λ p s' e same.
      subtask_done-ends done rank fuel p s'
        (λ t q k. h t q (ap (λ (f : ℕ → Option ℕ). f t) (sym same) ∙ k))
        (omega (arith, l, h cur p e)))

-- What the loop of ParallelTask::dispatch leaves.
start_loop_lem :
    (task index : ℕ) (ts : List ℕ) (s : Tasks)
    → ((start_loop task index ts s).dispatched ≡ s.dispatched ++ ts)
      × ((start_loop task index ts s).nleft ≡ s.nleft)
      × ((t : ℕ)
          → (start_loop task index ts s).parent t
            ≡ (if count t ts == 0 then s.parent t else some task))
unfolding start_loop start_subtask
start_loop_lem task index [] s = (sym (append-nil s.dispatched), refl, λ t. refl)
start_loop_lem task index (x ∷ xs) s =
    let (logged, same, parents) =
      start_loop_lem task (index + 1) xs (start_subtask task index x s) in
    (
      logged ∙ append_assoc s.dispatched (x ∷ []) xs,
      same,
      λ t. parents t ∙ elim (Bool-cases (x == t)) [
        | inl z ↦ let same : (t == x) ≡ true = ground (arith, z) in simp (z, same) (ground arith)
        | inr z ↦ let other : (t == x) ≡ false = ground (arith, z) in simp (z, other) (ground arith)
      ],
    )

-- ParallelTask::dispatch of a task with subtasks dispatches them all, in their order, with the task
-- as their parent, and its count is their number.
pub dispatch-starts :
    (done : ℕ → Option ℕ) (fuel task : ℕ) (s : Tasks)
    → 0 < length (s.subtasks task)
    → (s' : Tasks) × (dispatch done fuel task s ≡ some s')
      × (s'.dispatched ≡ s.dispatched ++ s.subtasks task)
      × (s'.nleft task ≡ length (s.subtasks task))
      × ((t : ℕ) → s'.parent t ≡ (if count t (s.subtasks task) == 0 then s.parent t else some task))
unfolding dispatch open_parallel
dispatch-starts done fuel task s h =
    let some_tasks : (length (s.subtasks task) == 0) ≡ false = ground (arith, h) in
    let s' = open_parallel task s in
    let (logged, same, parents) = start_loop_lem task 0 (s.subtasks task) s' in
    (
      start_loop task 0 (s.subtasks task) s',
      simp some_tasks refl,
      logged,
      ap (λ (f : ℕ → ℕ). f task) same ∙ ground arith,
      parents,
    )
