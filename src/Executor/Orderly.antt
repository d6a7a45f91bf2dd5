-- ===== src/Executor/Orderly.antt =====
-- What a queue does with the sessions that it accepted.
use mathlib.Core.Path.{subst}
use demo_submodule.Prelude.{
  count, count-append, erase, ℕ, ◌+◌, ◌<◌, ◌≡◌, refl, sym, ap, ◌∙◌, Bool, true, false, Option, none,
  some, List, [], ◌∷◌, ◌++◌, append-nil, append_assoc, ◌==◌, if◌then◌else◌, is_empty, arith,
  Bool-cases, inl, inr,
}
use demo_submodule.Executor.{
  ExecQueue, ExecState, finished, canceled, create, request, enqueue, take_entry,
  executor_thread_routine, handle_session, cancel_loop, executor_cancel_tasks, take_task,
}

abbrev pub handled_of : ℕ → List (ℕ × ExecState) → ℕ
handled_of x [] = 0
handled_of x ((y, state) ∷ ys) = (if y == x then 1 else 0) + handled_of x ys

-- The sessions for which request returned 0, in order, those that left the list, in order, and the
-- queue, after any calls. A thread of the pool that runs the routine has handled its session
-- at any time after.
pub data Run : (accepted taken : List ℕ) → ExecQueue → Type 0 where
  opens : (self : ℕ) (queue : ℕ → ℕ) → Run [] [] (create self queue)
  requests :
      (accepted taken : List ℕ) (q : ExecQueue) (allocates schedules : Bool) (session : ℕ)
      → Run accepted taken q
      → Run
          (if (request allocates schedules session q).0 == 0
            then accepted ++ session ∷ []
            else accepted)
          taken
          (request allocates schedules session q).1
  starts :
      (accepted taken : List ℕ) (q q' : ExecQueue) (session : ℕ)
      → Run accepted taken q
      → 0 < q.scheduled
      → executor_thread_routine (take_task q) ≡ some (session, q')
      → Run accepted (taken ++ session ∷ []) q'
  handles :
      (accepted taken : List ℕ) (q : ExecQueue) (session : ℕ)
      → Run accepted taken q
      → 0 < count session q.running
      → Run accepted taken (handle_session session q)
  cancels :
      (accepted taken : List ℕ) (q : ExecQueue)
      → Run accepted taken q
      → 0 < q.scheduled
      → Run accepted (taken ++ q.task_list) (executor_cancel_tasks (take_task q))

-- The sessions leave in the order in which they were accepted; the pool has one task of the queue
-- while sessions wait, and none else; each session that left is with a thread or was handled, once
-- for each time that it was accepted.
pub record IsOrderly (accepted taken : List ℕ) (q : ExecQueue) : Type 0 where
  pub in_order : accepted ≡ taken ++ q.task_list
  pub one_task : q.scheduled ≡ (if is_empty q.task_list then 0 else 1)
  pub once : (x : ℕ) → handled_of x q.handled + count x q.running ≡ count x taken

handled_of-append :
    (x : ℕ) (xs ys : List (ℕ × ExecState))
    → handled_of x (xs ++ ys) ≡ handled_of x xs + handled_of x ys
handled_of-append x [] ys = omega arith
handled_of-append x ((z, state) ∷ xs) ys = omega (arith, handled_of-append x xs ys)

count-erase_present :
    (x y : ℕ) (ys : List ℕ)
    → 0 < count y ys
    → count x (erase y ys) + (if y == x then 1 else 0) ≡ count x ys
count-erase_present x y [] h = absurd (omega arith)
count-erase_present x y (z ∷ ys) h = elim (Bool-cases (z == y)) [
  | inl e ↦ rw e (ground arith)
  | inr e ↦ rw e (ground (arith, count-erase_present x y ys))
]

empty-is_empty : (xs : List ℕ) → is_empty xs ≡ true → xs ≡ []
empty-is_empty [] e = refl
empty-is_empty (x ∷ xs) e = absurd (ground arith)

is_empty-append : (xs : List ℕ) (x : ℕ) → is_empty (xs ++ x ∷ []) ≡ false
is_empty-append [] x = refl
is_empty-append (y ∷ xs) x = refl

request-IsOrderly :
    (accepted taken : List ℕ) (q : ExecQueue) (allocates schedules : Bool) (session : ℕ)
    → IsOrderly accepted taken q
    → IsOrderly
        (if (request allocates schedules session q).0 == 0
          then accepted ++ session ∷ []
          else accepted)
        taken
        (request allocates schedules session q).1
unfolding request enqueue
request-IsOrderly accepted taken q false schedules session v = record {
  in_order = v.in_order;
  one_task = v.one_task;
  once = v.once;
}
request-IsOrderly accepted taken q true schedules session v =
    elim (Bool-cases (is_empty q.task_list)) [
      | inl e ↦
          let none_wait : q.task_list ≡ [] = empty-is_empty q.task_list e in
          let all_taken : accepted ≡ taken =
            v.in_order ∙ ap (λ (w : List ℕ). taken ++ w) none_wait ∙ append-nil taken in
          elim (Bool-cases schedules) [
            | inl yes_ ↦
                rw (e, yes_)
                  (record {
                    in_order = ap (λ (w : List ℕ). w ++ session ∷ []) all_taken;
                    one_task = ground (arith, v.one_task, e);
                    once = v.once;
                  })
            | inr no_ ↦
                rw (e, no_) (record { in_order = v.in_order; one_task = v.one_task; once = v.once })
          ]
      | inr e ↦ rw e (record {
        in_order =
            ap (λ (w : List ℕ). w ++ session ∷ []) v.in_order
            ∙ append_assoc taken q.task_list (session ∷ []);
        one_task = ground (arith, v.one_task, e, is_empty-append q.task_list session);
        once = v.once;
      })
    ]

-- What the routine leaves behind at its unlock.
abbrev Taken : List ℕ → List ℕ → Option (ℕ × ExecQueue) → Type 0
Taken accepted taken none = Unit
Taken accepted taken (some (session, q)) = IsOrderly accepted (taken ++ session ∷ []) q

take_entry-Taken :
    (accepted taken waiting : List ℕ) (q : ExecQueue)
    → IsOrderly accepted taken q
    → q.task_list ≡ waiting
    → Taken accepted taken (take_entry waiting (take_task q))
unfolding take_entry
take_entry-Taken accepted taken [] q v w = tt
take_entry-Taken accepted taken (session ∷ rest) q v w = record {
  in_order =
      v.in_order ∙ ap (λ (l : List ℕ). taken ++ l) w ∙ sym (append_assoc taken (session ∷ []) rest);
  one_task =
      let one : q.scheduled ≡ 1 = v.one_task ∙ ap (λ (l : List ℕ). if is_empty l then 0 else 1) w in
      ground (arith, one);
  once = λ x. omega (
    arith,
    v.once x,
    count-append x q.running (session ∷ []),
    count-append x taken (session ∷ []),
  );
}

handle_session-IsOrderly :
    (accepted taken : List ℕ) (q : ExecQueue) (session : ℕ)
    → IsOrderly accepted taken q
    → 0 < count session q.running
    → IsOrderly accepted taken (handle_session session q)
unfolding handle_session
handle_session-IsOrderly accepted taken q session v h = record {
  in_order = v.in_order;
  one_task = v.one_task;
  once = λ x. omega (
    arith,
    v.once x,
    handled_of-append x q.handled ((session, finished) ∷ []),
    count-erase_present x session q.running h,
  );
}

-- The rest of the list is canceled; `taken` has left already.
cancel_loop-IsOrderly :
    (accepted taken waiting : List ℕ) (q : ExecQueue)
    → accepted ≡ taken ++ waiting
    → q.scheduled ≡ 0
    → q.task_list ≡ waiting
    → ((x : ℕ) → handled_of x q.handled + count x q.running ≡ count x taken)
    → IsOrderly accepted (taken ++ waiting) (cancel_loop waiting q)
unfolding cancel_loop
cancel_loop-IsOrderly accepted taken [] q a z w o = record {
  in_order = a ∙ sym (append-nil (taken ++ [])) ∙ ap (λ (l : List ℕ). (taken ++ []) ++ l) (sym w);
  one_task = z ∙ sym (ap (λ (l : List ℕ). if is_empty l then 0 else 1) w);
  once = λ x. omega (arith, o x, count-append x taken []);
}
cancel_loop-IsOrderly accepted taken (session ∷ rest) q a z w o =
    subst (λ (l : List ℕ). IsOrderly accepted l (cancel_loop (session ∷ rest) q))
      (append_assoc taken (session ∷ []) rest)
      (cancel_loop-IsOrderly accepted (taken ++ session ∷ []) rest
        (record q { task_list = rest; handled = q.handled ++ (session, canceled) ∷ [] })
        (a ∙ sym (append_assoc taken (session ∷ []) rest)) z refl
        (λ x. omega (
          arith,
          o x,
          handled_of-append x q.handled ((session, canceled) ∷ []),
          count-append x taken (session ∷ []),
        )))

-- After any calls, the sessions have left in the order in which they were accepted, the pool has
-- one task of the queue while sessions wait and none else, and each session that left is with a
-- thread or was handled, exactly once for each time that it left.
pub Run-IsOrderly :
    (accepted taken : List ℕ) (q : ExecQueue) → Run accepted taken q → IsOrderly accepted taken q
unfolding executor_thread_routine executor_cancel_tasks
Run-IsOrderly _ _ _ (opens self queue) = record {
  in_order = refl;
  one_task = refl;
  once = λ x. refl;
}
Run-IsOrderly _ _ _ (requests accepted taken q allocates schedules session run) =
    request-IsOrderly accepted taken q allocates schedules session
      (Run-IsOrderly accepted taken q run)
Run-IsOrderly _ _ _ (starts accepted taken q q' session run pos e) =
    subst (Taken accepted taken) e
      (take_entry-Taken accepted taken q.task_list q (Run-IsOrderly accepted taken q run) refl)
Run-IsOrderly _ _ _ (handles accepted taken q session run pos) =
    handle_session-IsOrderly accepted taken q session (Run-IsOrderly accepted taken q run) pos
Run-IsOrderly _ _ _ (cancels accepted taken q run pos) =
    let v = Run-IsOrderly accepted taken q run in
    cancel_loop-IsOrderly accepted taken q.task_list (take_task q) v.in_order
      (ground (arith, v.one_task)) refl v.once
