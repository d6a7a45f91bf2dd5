-- ===== src/Poller/Queue/Fifo.antt =====
-- The two lists are one queue: first in, first out.
use mathlib.Core.Path.{subst}
use demo_submodule.Prelude.{
  ℕ, suc, ◌+◌, ◌≡◌, refl, sym, ap, ◌∙◌, Bool, true, false, not, ◌&&◌, Option, none, some, List, [],
  ◌∷◌, ◌++◌, append-nil, append_assoc, ltb, ◌==◌, length, length-append, arith, Bool-cases, inl,
  inr,
}
use demo_submodule.Poller.Queue.{
  PollerQueue, poller_queue_create, poller_queue_set_nonblock, poller_queue_set_block, last_place,
  put_node, swap, poller_queue_get,
}

-- The queue that the two lists stand for.
abbrev pub waiting : PollerQueue → List ℕ
waiting q = q.get_list ++ q.put_list

abbrev pub IsCounted : PollerQueue → Type 0
IsCounted q = q.res_cnt ≡ length q.put_list

-- What poller_queue_get does to a queue: it takes the first node; of an empty queue it waits, or
-- returns NULL if the queue does not block.
abbrev pub TakesNone : (nonblock : Bool) → PollerQueue → Type 0
TakesNone true q =
    (q' : PollerQueue) × (poller_queue_get q ≡ some (none, q')) × (waiting q' ≡ []) × IsCounted q'
TakesNone false q = poller_queue_get q ≡ none

abbrev pub Takes : List ℕ → PollerQueue → Type 0
Takes [] q = TakesNone q.nonblock q
Takes (n ∷ ns) q =
    (q' : PollerQueue) × (poller_queue_get q ≡ some (some n, q')) × (waiting q' ≡ ns) × IsCounted q'

swap-empty :
    (q : PollerQueue) (nonblock : Bool)
    → q.nonblock ≡ nonblock
    → q.get_list ≡ []
    → q.put_list ≡ []
    → q.res_cnt ≡ 0
    → TakesNone nonblock q
unfolding poller_queue_get swap
swap-empty q true k d e z = (
  record q { get_list = q.put_list; put_list = q.get_list; res_cnt = 0 },
  simp (d, k, z) refl,
  rw (d, e) refl,
  ap length (sym d),
)
swap-empty q false k d e z = simp (d, k, z) refl

get-Takes_of :
    (got put : List ℕ) (q : PollerQueue)
    → q.get_list ≡ got
    → q.put_list ≡ put
    → IsCounted q
    → Takes (got ++ put) q
unfolding poller_queue_get swap
get-Takes_of [] [] q d e c = swap-empty q q.nonblock refl d e (c ∙ ap length e)
get-Takes_of [] (n ∷ ns) q d e c =
    let full : q.res_cnt ≡ suc (length ns) = c ∙ ap length e in
    let busy : (q.res_cnt == 0) ≡ false = ground (arith, full) in
    let more : ltb 0 q.res_cnt ≡ true = ground (arith, full) in
    (
      record q { get_list = ns; put_list = []; res_cnt = 0 },
      simp (d, e, busy, more) refl,
      append-nil ns,
      refl,
    )
get-Takes_of (n ∷ ns) put q d e c =
    (record q { get_list = ns }, simp d refl, ap (λ (w : List ℕ). ns ++ w) e, c)

pub get-Takes : (q : PollerQueue) → IsCounted q → Takes (waiting q) q
get-Takes q c = get-Takes_of q.get_list q.put_list q refl refl c

-- The nodes that were put, in order, those that were taken, in order, and the queue, after any calls.
pub data Run : (accepted taken : List ℕ) → PollerQueue → Type 0 where
  opens : (maxlen : ℕ) → Run [] [] (poller_queue_create maxlen)
  puts :
      (accepted taken : List ℕ) (q q' : PollerQueue) (is_stopping : Bool) (n : ℕ)
      → Run accepted taken q
      → put_node is_stopping n q ≡ some q'
      → Run (accepted ++ n ∷ []) taken q'
  gets :
      (accepted taken : List ℕ) (q q' : PollerQueue) (n : ℕ)
      → Run accepted taken q
      → poller_queue_get q ≡ some (some n, q')
      → Run accepted (taken ++ n ∷ []) q'
  finds_none :
      (accepted taken : List ℕ) (q q' : PollerQueue)
      → Run accepted taken q
      → poller_queue_get q ≡ some (none, q')
      → Run accepted taken q'
  unblocks :
      (accepted taken : List ℕ) (q : PollerQueue)
      → Run accepted taken q
      → Run accepted taken (poller_queue_set_nonblock q)
  blocks :
      (accepted taken : List ℕ) (q : PollerQueue)
      → Run accepted taken q
      → Run accepted taken (poller_queue_set_block q)

abbrev queue_of : PollerQueue → Option PollerQueue → PollerQueue
queue_of q none = q
queue_of q (some q') = q'

-- What a put leaves.
put_node-Appends :
    (is_stopping : Bool) (n : ℕ) (q q' : PollerQueue)
    → put_node is_stopping n q ≡ some q'
    → IsCounted q
    → (waiting q' ≡ waiting q ++ n ∷ []) × IsCounted q'
unfolding put_node
put_node-Appends is_stopping n q q' e c =
    elim (Bool-cases (ltb (last_place q.res_max) q.res_cnt && not is_stopping)) [
      | inl k ↦
          let waits : put_node is_stopping n q ≡ none = simp k refl in
          absurd (ground (arith, waits, e))
      | inr k ↦
          let put : PollerQueue = record q {
            put_list = q.put_list ++ n ∷ [];
            res_cnt = q.res_cnt + 1;
          } in
          let done : put_node is_stopping n q ≡ some put = simp k refl in
          let same : put ≡ q' = ap (queue_of q) (sym done ∙ e) in
          subst (λ w. (waiting w ≡ waiting q ++ n ∷ []) × IsCounted w) same
            (
              sym (append_assoc q.get_list q.put_list (n ∷ [])),
              omega (arith, c, length-append q.put_list (n ∷ [])),
            )
    ]

abbrev answer_of : Option ℕ × PollerQueue → Option (Option ℕ × PollerQueue) → Option ℕ × PollerQueue
answer_of d none = d
answer_of d (some r) = r

-- What a get leaves.
abbrev Left : Option ℕ → List ℕ → PollerQueue → Type 0
Left none w q' = (w ≡ []) × (waiting q' ≡ []) × IsCounted q'
Left (some n) w q' = (w ≡ n ∷ waiting q') × IsCounted q'

same_answer :
    (w : List ℕ) (q q1 q' : PollerQueue) (o1 o : Option ℕ)
    → poller_queue_get q ≡ some (o1, q1)
    → poller_queue_get q ≡ some (o, q')
    → Left o1 w q1
    → Left o w q'
same_answer w q q1 q' o1 o d e l =
    subst (λ (r : Option ℕ × PollerQueue). Left r.0 w r.1) (ap (answer_of (o, q')) (sym d ∙ e)) l

TakesNone-Left :
    (nonblock : Bool) (q q' : PollerQueue) (o : Option ℕ)
    → TakesNone nonblock q
    → poller_queue_get q ≡ some (o, q')
    → Left o [] q'
TakesNone-Left true q q' o (q1, d, w, c) e = same_answer [] q q1 q' none o d e (refl, w, c)
TakesNone-Left false q q' o t e = absurd (ground (arith, t, e))

Takes-Left :
    (w : List ℕ) (q q' : PollerQueue) (o : Option ℕ)
    → Takes w q
    → poller_queue_get q ≡ some (o, q')
    → Left o w q'
Takes-Left [] q q' o t e = TakesNone-Left q.nonblock q q' o t e
Takes-Left (n ∷ ns) q q' o (q1, d, w, c) e =
    same_answer (n ∷ ns) q q1 q' (some n) o d e (ap (λ (v : List ℕ). n ∷ v) (sym w), c)

-- First in, first out: after any calls the nodes that were put are those that were taken, then those
-- that wait, in order; the count is that of the list that producers put to; poller_queue_get takes
-- the first node that waits, and of an empty queue it waits, or returns NULL if that does not block.
pub Run-Takes :
    (accepted taken : List ℕ) (q : PollerQueue)
    → Run accepted taken q
    → (accepted ≡ taken ++ waiting q) × IsCounted q × Takes (waiting q) q
unfolding poller_queue_create poller_queue_set_nonblock poller_queue_set_block
Run-Takes accepted taken q run =
    let (order, counted) = in_order accepted taken q run in (order, counted, get-Takes q counted)
  where
    in_order :
        (accepted taken : List ℕ) (q : PollerQueue)
        → Run accepted taken q
        → (accepted ≡ taken ++ waiting q) × IsCounted q
    in_order _ _ _ (opens maxlen) = (refl, refl)
    in_order _ _ _ (puts accepted taken q q' is_stopping n run e) =
        let (order, counted) = in_order accepted taken q run in
        let (longer, counted') = put_node-Appends is_stopping n q q' e counted in
        (
          ap (λ (w : List ℕ). w ++ n ∷ []) order
              ∙ append_assoc taken (waiting q) (n ∷ [])
              ∙ ap (λ (w : List ℕ). taken ++ w) (sym longer),
          counted',
        )
    in_order _ _ _ (gets accepted taken q q' n run e) =
        let (order, counted) = in_order accepted taken q run in
        let (first, counted') = Takes-Left (waiting q) q q' (some n) (get-Takes q counted) e in
        (
          order
              ∙ ap (λ (w : List ℕ). taken ++ w) first
              ∙ sym (append_assoc taken (n ∷ []) (waiting q')),
          counted',
        )
    in_order _ _ _ (finds_none accepted taken q q' run e) =
        let (order, counted) = in_order accepted taken q run in
        let (was_empty, is_empty', counted') =
          Takes-Left (waiting q) q q' none (get-Takes q counted) e in
        (order ∙ ap (λ (w : List ℕ). taken ++ w) (was_empty ∙ sym is_empty'), counted')
    in_order _ _ _ (unblocks accepted taken q run) = in_order accepted taken q run
    in_order _ _ _ (blocks accepted taken q run) = in_order accepted taken q run
