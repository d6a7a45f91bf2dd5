-- ===== src/Poller/Events.antt =====
-- What the thread of the poller does: __poller_remove_node, __poller_handle_connect,
-- __poller_handle_timeout, __poller_handle_pipe and the loop of __poller_thread_routine.
use demo_submodule.Prelude.{
  ℕ, zero, suc, Bool, true, false, Option, none, some, List, [], ◌∷◌, ◌==◌, ◌||◌, if◌then◌else◌,
  erase, length,
}
use demo_submodule.Poller.{
  Poller, Timespec, finished, failed, earlier, next_of, unlink, put_result, add_result, clear_fd,
}

-- Whether the node was removed before; else it is taken out. Faithful for a node that is in a list
-- or the tree, or was removed. For a node that __poller_handle_timeout has handed over the code
-- takes the links of the result queue apart, which is undefined and not modelled.
unfoldable pub remove_node : ℕ → Poller → Bool × Poller
remove_node n p = if p.removed n then (true, p) else (false, clear_fd (p.fd n) (unlink n p))

-- __poller_handle_connect, with the error that getsockopt gives: the node is handed over with it,
-- unless it was removed. __poller_handle_read and __poller_handle_listen end in the same steps, from
-- their call of __poller_remove_node on; what they read, append and put into the result queue before
-- it is left out.
abbrev pub hand_finished : (error n : ℕ) → Bool × Poller → Poller
hand_finished error n (true, p) = p
hand_finished error n (false, p) = add_result n (if error == 0 then finished else failed) error p

unfoldable pub finish_node : (error n : ℕ) → Poller → Poller
finish_node error n p = hand_finished error n (remove_node n p)

-- The first loop of __poller_handle_timeout, over `timeo_list`: the nodes that it moves, and the
-- poller.
unfoldable pub expire_list : Timespec → List ℕ → Poller → List ℕ × Poller
expire_list now [] p = ([], p)
expire_list now (n ∷ rest) p =
    let (moved, p') = expire_list now rest (clear_fd (p.fd n) (record p { timeo_list = rest })) in
    if earlier (p.timeout n) now then (n ∷ moved, p') else ([], p)

-- The second loop, while there is a first node of the tree.
abbrev pub leave_tree : ℕ → Poller → Poller
leave_tree n p =
    let p' = clear_fd (p.fd n) p in
    record p' { tree_first = next_of n p.timeo_tree; timeo_tree = erase n p.timeo_tree }

abbrev pub expire_first :
    Timespec → Option ℕ → (Poller → List ℕ × Poller) → Poller → List ℕ × Poller
expire_first now none go_on p = ([], p)
expire_first now (some n) go_on p =
    let (moved, p') = go_on (leave_tree n p) in
    if earlier (p.timeout n) now then (n ∷ moved, p') else ([], p)

unfoldable pub expire_tree : Timespec → (fuel : ℕ) → Poller → List ℕ × Poller
expire_tree now zero p = ([], p)
expire_tree now (suc fuel) p = expire_first now p.tree_first (expire_tree now fuel) p

-- The third loop, with ETIMEDOUT.
unfoldable pub hand_expired : List ℕ → Poller → Poller
hand_expired [] p = p
hand_expired (n ∷ ns) p = hand_expired ns (add_result n failed 110 p)

unfoldable pub handle_timeout : (now : Timespec) → Poller → Poller
handle_timeout now p =
    let (from_list, p1) = expire_list now p.timeo_list p in
    let (from_tree, p2) = expire_tree now (length p1.timeo_tree) p1 in
    hand_expired from_tree (hand_expired from_list p2)

-- __poller_handle_pipe, of what it has read; 0 stands for NULL.
unfoldable pub hand_piped : List ℕ → Poller → Bool × Poller
hand_piped [] p = (false, p)
hand_piped (zero ∷ ns) p = (true, (hand_piped ns p).1)
hand_piped (suc n ∷ ns) p = hand_piped ns (put_result (suc n) p)

-- The pipe is read whole, as the buffer is larger than a pipe; the read of an empty pipe waits.
abbrev pub read_pipe : List ℕ → Poller → Option (Bool × Poller)
read_pipe [] p = none
read_pipe (n ∷ ns) p = some (hand_piped (n ∷ ns) (record p { pipe = [] }))

unfoldable pub handle_pipe : Poller → Option (Bool × Poller)
handle_pipe p = read_pipe p.pipe p

-- What epoll_wait gives: a node, with the error if its handler comes to the end of the node; the
-- pipe; the timer.
pub data Event : Type 0 where
  ready : ℕ → (ends : Option ℕ) → Event
  piped timed : Event

abbrev pub handle_event : Event → Poller → Poller
handle_event (ready n (some error)) p = finish_node error n p
handle_event other p = p

abbrev pub is_piped : Event → Bool
is_piped piped = true
is_piped other = false

abbrev pub after_pipe :
    (Poller → Option (Bool × Poller)) → Option (Bool × Poller) → Option (Bool × Poller)
after_pipe go_on none = none
after_pipe go_on (some (true, p)) = some (true, p)
after_pipe go_on (some (false, p)) = go_on p

-- The inner loop of __poller_thread_routine: whether it stops; `none` if a read waits.
unfoldable pub handle_events :
    (now : Timespec) → (has_pipe_event : Bool) → List Event → Poller → Option (Bool × Poller)
handle_events now has_pipe_event [] p = some (false, p)
handle_events now has_pipe_event (e ∷ es) p =
    let has_pipe_event' = is_piped e || has_pipe_event in
    let p' = handle_event e p in
    after_pipe (λ q. handle_events now has_pipe_event' es (handle_timeout now q))
      (if has_pipe_event' then handle_pipe p' else some (false, p'))
