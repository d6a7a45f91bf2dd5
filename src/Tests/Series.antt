-- ===== src/Tests/Series.antt =====
-- A series whose ring wraps round and grows.
use demo_submodule.Prelude.{ℕ, ◌≡◌, refl, true, false, List, [], ◌∷◌, arith}
use demo_submodule.Series.{SeriesWork, create, pop, dismiss_recursive}
use demo_submodule.Series.Window.{window}
use demo_submodule.Series.Deque.{IsValid}
use demo_submodule.Series.Spec.{Call, answers, answers-create}
use demo_submodule.Series.Cancel.{Drained, pop-Drained, dismiss_recursive-Drained}

abbrev cells : List ℕ
cells = 0 ∷ 0 ∷ 0 ∷ 0 ∷ []

abbrev calls : List Call
calls =
    Call.push_back 5
    ∷ Call.push_front 6
    ∷ Call.push_back 7
    ∷ Call.push_front 8
    ∷ Call.set_last_task 9
    ∷ Call.pop_task
    ∷ Call.pop_task
    ∷ Call.pop_task
    ∷ Call.pop_task
    ∷ Call.pop_task
    ∷ Call.pop_task
    ∷ []

answers-create_example :
    answers (create 1 true cells) calls ≡ 0 ∷ 0 ∷ 0 ∷ 0 ∷ 0 ∷ 8 ∷ 6 ∷ 5 ∷ 7 ∷ 9 ∷ 0 ∷ []
answers-create_example = answers-create 1 true cells calls refl

-- Three tasks, in an array that is read over its end.
abbrev waiting : SeriesWork
waiting = record {
  first = 1;
  last = 9;
  queue = 7 ∷ 8 ∷ 0 ∷ 6 ∷ [];
  queue_size = 4;
  front = 3;
  back = 2;
  in_parallel = false;
  canceled = true;
  callback = true;
  called = 0;
  deleted = false;
  deleted_tasks = [];
}

waiting-IsValid : IsValid waiting
waiting-IsValid = record { size = refl; front = omega arith; back = omega arith }

pop-Drained_example : ((pop waiting).0 ≡ 0) × Drained (pop waiting).1 (6 ∷ 7 ∷ 8 ∷ 9 ∷ []) 1
unfolding window
pop-Drained_example = pop-Drained waiting waiting-IsValid (ground arith) refl

dismiss_recursive-Drained_example : Drained (dismiss_recursive waiting) (1 ∷ 6 ∷ 7 ∷ 8 ∷ 9 ∷ []) 0
unfolding window
dismiss_recursive-Drained_example =
    dismiss_recursive-Drained waiting waiting-IsValid (ground arith) (omega arith)
