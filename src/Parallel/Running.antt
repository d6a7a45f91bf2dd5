-- ===== src/Parallel/Running.antt =====
-- Threads that run the tasks of parallel tasks, one step of one of them at a time.
use demo_submodule.Prelude.{
  ℕ, ◌+◌, ◌<◌, ◌≡◌, Bool, true, false, Option, none, some, List, [], ◌∷◌, update, length, count,
  erase,
}
use demo_submodule.Parallel.{Tasks, round, open_parallel, start_subtask}

-- Besides the tasks: those that were dispatched and are not at their end, those that a thread is at
-- with subtask_done, the parallel tasks that have set `nleft`, and their subtasks that are still to
-- be dispatched, of the given index on.
pub record Running : Type 0 where
  pub tasks : Tasks
  pub active : List ℕ
  pub doing : List ℕ
  pub opened : ℕ → Bool
  pub pending : ℕ → List ℕ
  pub index : ℕ → ℕ

-- One task begins.
abbrev pub begun : Tasks → ℕ → Running
begun s task = record {
  tasks = s;
  active = task ∷ [];
  doing = [];
  opened = λ _. false;
  pending = λ _. [];
  index = λ _. 0;
}

abbrev pub Idle : ℕ → Running → Type 0
Idle t r = count t r.active + count t r.doing ≡ 0

abbrev pub up_active : Option ℕ → List ℕ → List ℕ
up_active none active = active
up_active (some p) active = erase p active

abbrev pub up_doing : Option ℕ → List ℕ → List ℕ
up_doing none doing = doing
up_doing (some p) doing = p ∷ doing

abbrev pub up_opened : Option ℕ → (ℕ → Bool) → ℕ → Bool
up_opened none opened = opened
up_opened (some p) opened = update opened p false

abbrev pub next_active : Option ℕ → List ℕ → List ℕ
next_active none active = active
next_active (some c) active = c ∷ active

abbrev pub after_round : Option ℕ → ℕ → Running → Running
after_round next t r =
    let (up, s) = round next t r.tasks in
    record r {
      tasks = s;
      active = next_active next (up_active up r.active);
      doing = up_doing up (erase t r.doing);
      opened = up_opened up r.opened;
    }

abbrev pub NextIdle : Option ℕ → Running → Type 0
NextIdle none r = Unit
NextIdle (some c) r = Idle c r

-- A task is dispatched only if it does not run, and a parallel task once; a parallel task comes to its
-- end only by the round of another, or when it has no subtasks.
pub data Step : Running → Running → Type 0 where
  completes :
      (r : Running) (t : ℕ)
      → 0 < count t r.active
      → r.opened t ≡ false
      → Step r (record r { active = erase t r.active; doing = t ∷ r.doing })
  rounds :
      (r : Running) (next : Option ℕ) (t : ℕ)
      → 0 < count t r.doing
      → NextIdle next r
      → Step r (after_round next t r)
  opens :
      (r : Running) (task : ℕ)
      → 0 < count task r.active
      → r.opened task ≡ false
      → 0 < length (r.tasks.subtasks task)
      → Step r (record r {
        tasks = open_parallel task r.tasks;
        opened = update r.opened task true;
        pending = update r.pending task (r.tasks.subtasks task);
        index = update r.index task 0;
      })
  starts :
      (r : Running) (task subtask : ℕ) (rest : List ℕ)
      → r.pending task ≡ subtask ∷ rest
      → Idle subtask r
      → Step r (record r {
        tasks = start_subtask task (r.index task) subtask r.tasks;
        active = subtask ∷ r.active;
        pending = update r.pending task rest;
        index = update r.index task (r.index task + 1);
      })

pub data Steps : Running → Running → Type 0 where
  stays : (r : Running) → Steps r r
  then_steps : (p q r : Running) → Step p q → Steps q r → Steps p r
