-- ===== src/Series/Spec.antt =====
-- What a series promises: its tasks are a sequence open at both ends, and the `last` task follows
-- when the sequence is empty.
use mathlib.Core.Path.{ap₂}
use demo_submodule.Prelude.{
  ℕ, ◌≡◌, refl, ap, ◌∙◌, Bool, inl, inr, List, [], ◌∷◌, ◌++◌, arith, Bool-cases, ◌==◌, length,
}
use demo_submodule.Series
use demo_submodule.Series.{SeriesWork, create, expand_if_full, expand_queue, finish}
use demo_submodule.Series.Window.{window}
use demo_submodule.Series.Deque.{
  IsValid, tasks, tasks-push_back, tasks-push_front, advance, pop_task_some, pop_task_none,
}

pub record Sequence : Type 0 where
  pub items : List ℕ
  pub last : ℕ

pub data Call : Type 0 where
  push_back : ℕ → Call
  push_front : ℕ → Call
  set_last_task : ℕ → Call
  pop_task : Call

-- The answer of a call and the next state; a call that returns nothing answers 0.
abbrev pub respond : SeriesWork → Call → ℕ × SeriesWork
respond s (Call.push_back t) = (0, Series.push_back t s)
respond s (Call.push_front t) = (0, Series.push_front t s)
respond s (Call.set_last_task t) = (0, Series.set_last_task t s)
respond s Call.pop_task = Series.pop_task s

abbrev take_next : List ℕ → ℕ → ℕ × Sequence
take_next [] last = (last, record { items = []; last = 0 })
take_next (t ∷ ts) last = (t, record { items = ts; last = last })

abbrev pub expect : Sequence → Call → ℕ × Sequence
expect q (Call.push_back t) = (0, record q { items = q.items ++ t ∷ [] })
expect q (Call.push_front t) = (0, record q { items = t ∷ q.items })
expect q (Call.set_last_task t) = (0, record q { last = t })
expect q Call.pop_task = take_next q.items q.last

abbrev pub view : SeriesWork → Sequence
view s = record { items = tasks s; last = s.last }

abbrev pub answers : SeriesWork → List Call → List ℕ
answers s [] = []
answers s (c ∷ cs) = (respond s c).0 ∷ answers (respond s c).1 cs

abbrev pub expected : Sequence → List Call → List ℕ
expected q [] = []
expected q (c ∷ cs) = (expect q c).0 ∷ expected (expect q c).1 cs

record Simulates (s : SeriesWork) (c : Call) : Type 0 where
  answer : (respond s c).0 ≡ (expect (view s) c).0
  state : view (respond s c).1 ≡ (expect (view s) c).1
  valid : IsValid (respond s c).1

last-push_back : (t : ℕ) (s : SeriesWork) → (Series.push_back t s).last ≡ s.last
unfolding Series.push_back expand_if_full expand_queue
last-push_back t s = ground arith

last-push_front : (t : ℕ) (s : SeriesWork) → (Series.push_front t s).last ≡ s.last
unfolding Series.push_front expand_if_full expand_queue
last-push_front t s = ground arith

abbrev sequence : List ℕ → ℕ → Sequence
sequence items last = record { items = items; last = last }

settle_lem :
    (t : ℕ) (s : SeriesWork)
    → IsValid s
    → (view (Series.settle t s).1 ≡ view s) × IsValid (Series.settle t s).1
unfolding Series.settle finish
settle_lem t s v = elim (Bool-cases (t == 0)) [
  | inl e ↦ rw e (refl, record { size = v.size; front = v.front; back = v.back })
  | inr e ↦ rw e (refl, v)
]

answer-settle : (t : ℕ) (s : SeriesWork) → (Series.settle t s).0 ≡ t
unfolding Series.settle
answer-settle t s = refl

pop_task-Simulates :
    (s : SeriesWork) (items : List ℕ) → IsValid s → tasks s ≡ items → Simulates s Call.pop_task
pop_task-Simulates s [] v e =
    let p = pop_task_none s v e in
    let s' = record s { last = 0 } in
    let v' : IsValid s' = record { size = v.size; front = v.front; back = v.back } in
    let (b, c) = settle_lem s.last s' v' in
    record {
      answer = rw (p, e) (answer-settle s.last s');
      state = rw (p, e) (b ∙ ap (λ l. sequence l 0) e);
      valid = rw p c;
    }
pop_task-Simulates s (t ∷ ts) v e =
    let (p, v', e') = pop_task_some s t ts v e in
    let (b, c) = settle_lem t (advance s) v' in
    record {
      answer = rw (p, e) (answer-settle t (advance s));
      state = rw (p, e) (b ∙ ap (λ l. sequence l s.last) e');
      valid = rw p c;
    }

respond-Simulates : (s : SeriesWork) (c : Call) → IsValid s → Simulates s c
respond-Simulates s (Call.push_back t) v =
    let (v', e) = tasks-push_back t s v in
    record { answer = refl; state = ap₂ sequence e (last-push_back t s); valid = v' }
respond-Simulates s (Call.push_front t) v =
    let (v', e) = tasks-push_front t s v in
    record { answer = refl; state = ap₂ sequence e (last-push_front t s); valid = v' }
respond-Simulates s (Call.set_last_task t) v =
    unfold Series.set_last_task in
    record {
      answer = refl;
      state = refl;
      valid = record { size = v.size; front = v.front; back = v.back };
    }
respond-Simulates s Call.pop_task v = pop_task-Simulates s (tasks s) v refl

answers-expected :
    (s : SeriesWork) (calls : List Call) → IsValid s → answers s calls ≡ expected (view s) calls
answers-expected s [] v = refl
answers-expected s (c ∷ cs) v =
    let r = respond-Simulates s c v in
    ap₂ (◌∷◌) r.answer
      (answers-expected (respond s c).1 cs r.valid ∙ ap (λ q. expected q cs) r.state)

-- From a new series, any sequence of `push_back`, `push_front`, `set_last_task` and `pop_task`
-- gives the answers of the open-ended sequence, however often the ring wraps round or grows.
pub answers-create :
    (first : ℕ) (callback : Bool) (fresh : List ℕ) (calls : List Call)
    → length fresh ≡ 4
    → answers (create first callback fresh) calls ≡ expected (record { items = []; last = 0 }) calls
unfolding create window
answers-create first callback fresh calls h =
    answers-expected (create first callback fresh) calls
      (record { size = h; front = omega arith; back = omega arith })
