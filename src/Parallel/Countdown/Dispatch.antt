-- ===== src/Parallel/Countdown/Dispatch.antt =====
-- Parallel tasks that begin, and tasks that complete.
use mathlib.Core.Path.{subst}
use demo_submodule.Prelude.{
  ℕ, suc, ◌+◌, ◌<◌, ◌≡◌, refl, sym, ap, ◌∙◌, true, false, some, List, ◌∷◌, ◌==◌, update, length,
  count, count-erase, erase, arith, Bool-cases, inl, inr,
}
use demo_submodule.Parallel.{open_parallel, start_subtask}
use demo_submodule.Parallel.Running.{Running, Idle}
use demo_submodule.Parallel.Countdown.{is_kid, kids, kids-erase, kids-update, IsCounting}

pub completes-IsCounting :
    (r : Running) (t : ℕ)
    → 0 < count t r.active
    → r.opened t ≡ false
    → IsCounting r
    → IsCounting (record r { active = erase t r.active; doing = t ∷ r.doing })
completes-IsCounting r t h o v =
    let moved = λ (p : ℕ). kids-erase r.tasks.parent p t r.active h in
    record {
      once = λ u. ground (arith, v.once u, count-erase u t r.active, h);
      counted = λ p e. ground (arith, v.counted p e, moved p);
      closed = λ p e. ground (arith, v.closed p e, moved p);
      runs = λ p e.
          let (some_left, here) = v.runs p e in
          let other : (p == t) ≡ false = elim (Bool-cases (p == t)) [
            | inl z ↦
                let same : r.opened p ≡ r.opened t = ap r.opened (ground (arith, z)) in
                absurd (ground (arith, same, e, o))
            | inr z ↦ z
          ] in
          (some_left, ground (arith, here, count-erase p t r.active, other));
    }

pub opens-IsCounting :
    (r : Running) (task : ℕ)
    → 0 < count task r.active
    → r.opened task ≡ false
    → 0 < length (r.tasks.subtasks task)
    → IsCounting r
    → IsCounting (record r {
      tasks = open_parallel task r.tasks;
      opened = update r.opened task true;
      pending = update r.pending task (r.tasks.subtasks task);
      index = update r.index task 0;
    })
unfolding open_parallel
opens-IsCounting r task h o l v = record {
  once = v.once;
  counted = λ p e. elim (Bool-cases (p == task)) [
    | inl z ↦
        let same : task ≡ p = ground (arith, z) in
        rw z (
          subst
            (λ w.
              length (r.tasks.subtasks task)
              ≡ kids r.tasks.parent w r.active
                + kids r.tasks.parent w r.doing
                + length (r.tasks.subtasks task))
            same (omega (arith, v.closed task o)))
    | inr z ↦ rw z (v.counted p (ground (arith, e, z)))
  ];
  closed = λ p e. elim (Bool-cases (p == task)) [
    | inl z ↦ absurd (ground (arith, e, z))
    | inr z ↦ rw z (v.closed p (ground (arith, e, z)))
  ];
  runs = λ p e. elim (Bool-cases (p == task)) [
    | inl z ↦
        let same : count p r.active ≡ count task r.active =
          ap (λ (w : ℕ). count w r.active) (ground (arith, z)) in
        (rw z l, omega (arith, same, h, v.once task))
    | inr z ↦ rw z (v.runs p (ground (arith, e, z)))
  ];
}

pub starts-IsCounting :
    (r : Running) (task subtask : ℕ) (rest : List ℕ)
    → r.pending task ≡ subtask ∷ rest
    → Idle subtask r
    → IsCounting r
    → IsCounting (record r {
      tasks = start_subtask task (r.index task) subtask r.tasks;
      active = subtask ∷ r.active;
      pending = update r.pending task rest;
      index = update r.index task (r.index task + 1);
    })
unfolding start_subtask
starts-IsCounting r task subtask rest e idle v =
    let parent = update r.tasks.parent subtask (some task) in
    let here : (subtask == subtask) ≡ true = ground arith in
    let kid : (p : ℕ) → is_kid (parent subtask) p ≡ (task == p) = λ p. rw here refl in
    let same_active =
      λ (p : ℕ). kids-update r.tasks.parent p subtask (some task) r.active (omega (arith, idle)) in
    let same_doing =
      λ (p : ℕ). kids-update r.tasks.parent p subtask (some task) r.doing (omega (arith, idle)) in
    let total : (p : ℕ)
        → kids parent p (subtask ∷ r.active)
            + kids parent p r.doing
            + length (update r.pending task rest p)
          ≡ kids r.tasks.parent p r.active + kids r.tasks.parent p r.doing + length (r.pending p) =
      λ p. elim (Bool-cases (p == task)) [
        | inl z ↦
            let same : p ≡ task = ground (arith, z) in
            let waits : length (r.pending p) ≡ suc (length rest) =
              ap (λ (w : ℕ). length (r.pending w)) same ∙ ap (λ (w : List ℕ). length w) e in
            rw z (ground (arith, kid p, same_active p, same_doing p, waits, same))
        | inr z ↦ rw z (ground (arith, kid p, same_active p, same_doing p, z))
      ] in
    record {
      once = λ u. ground (arith, v.once u, idle);
      counted = λ p o. v.counted p o ∙ sym (total p);
      closed = λ p o. total p ∙ v.closed p o;
      runs = λ p o. ((v.runs p o).0, ground (arith, (v.runs p o).1, idle));
    }
