-- ===== src/Poller/Calls.antt =====
-- The calls of poller.h: poller_add, poller_del, poller_mod, poller_set_timeout and
-- poller_add_timer.
use demo_submodule.Prelude.{
  ℕ, ◌+◌, Bool, true, false, Option, none, some, [], ◌∷◌, ◌++◌, leb, if◌then◌else◌, update,
}
use demo_submodule.Poller.{
  Poller, Timespec, Slot, empty, reserved, holds, NodeState, deleted, modified, carry, time_in,
  unlink, link_node, put_result, clear_fd,
}

-- The value 0, or -1 with `errno`; a call that reads through POLLER_NODE_ERROR, or an operation that
-- __poller_data_get_event does not return for, is undefined.
pub data Outcome : Type 0 where
  done bad_file too_many_files no_memory invalid exists no_entry no_event undefined : Outcome

pub data Operation : Type 0 where
  read write listen connect event notify timer : Operation

-- __poller_data_get_event: whether a result node is needed.
unfoldable pub data_get_event : Operation → (message : Bool) → Option Bool
data_get_event read message = some message
data_get_event listen message = some true
data_get_event connect message = some false
data_get_event other message = none

-- A node that was just allocated gets its fields.
abbrev pub fill_node : ℕ → Option ℕ → Poller → Poller
fill_node n fd p = record p {
  fd = update p.fd n fd;
  in_rbtree = update p.in_rbtree n false;
  removed = update p.removed n false;
}

abbrev pub deadline : (now : Timespec) → Option ℕ → Option Timespec
deadline now none = none
deadline now (some timeout) = some (time_in now timeout)

-- `allocates_res` and `allocates` are the outcomes of the two mallocs, `adds` that of epoll_ctl.
abbrev pub add_to_slot :
    (adds : Bool) → (fd n : ℕ) → Option Timespec → Slot → Poller → Outcome × Poller
add_to_slot adds fd n until empty p =
    if adds
    then (
      done,
      record (link_node n until (fill_node n (some fd) p)) {
        nodes = update p.nodes fd (holds n);
        registered = update p.registered fd (some n);
      },
    )
    else (no_event, p)
add_to_slot adds fd n until reserved p = (invalid, p)
add_to_slot adds fd n until (holds m) p = (exists, p)

-- The allocations of poller_add and poller_mod, where `need_res` is what __poller_data_get_event
-- returns.
abbrev pub allocate :
    (need_res : Option Bool)
    → (allocates_res allocates : Bool) → (Poller → Outcome × Poller)
    → Poller
    → Outcome × Poller
allocate none allocates_res allocates go p = (undefined, p)
allocate (some true) false allocates go p = (no_memory, p)
allocate (some need_res) allocates_res false go p = (no_memory, p)
allocate (some need_res) allocates_res true go p = go p

-- What poller_add and poller_mod do before they take the mutex.
unfoldable pub prepare :
    (operation : Operation)
    → (message allocates_res allocates : Bool) → Option ℕ
    → (ℕ → Poller → Outcome × Poller)
    → Poller
    → Outcome × Poller
prepare operation message allocates_res allocates none go p = (bad_file, p)
prepare operation message allocates_res allocates (some fd) go p =
    if leb p.max_open_files fd
    then (too_many_files, p)
    else allocate (data_get_event operation message) allocates_res allocates (go fd) p

unfoldable pub poller_add :
    (operation : Operation)
    → (message allocates_res allocates adds : Bool) → (now : Timespec) → Option ℕ
    → (n : ℕ) → (timeout : Option ℕ) → Poller
    → Outcome × Poller
poller_add operation message allocates_res allocates adds now fd n timeout =
    prepare operation message allocates_res allocates fd
      (λ f p. add_to_slot adds f n (deadline now timeout) (p.nodes f) p)

-- A node that was taken out is a result at once, by __poller_add_result, if the thread has ended;
-- else it goes through the pipe, as the thread may still hold it.
unfoldable pub hand_over : ℕ → NodeState → Poller → Poller
hand_over n state p = record p {
  state = update p.state n state;
  error = update p.error n 0;
  results = if p.is_stopped then (put_result n p).results else p.results;
  removed = if p.is_stopped then p.removed else update p.removed n true;
  pipe = if p.is_stopped then p.pipe else p.pipe ++ n ∷ [];
}

abbrev pub del_from_slot : ℕ → Slot → Poller → Outcome × Poller
del_from_slot fd empty p = (no_entry, p)
del_from_slot fd reserved p = (undefined, p)
del_from_slot fd (holds n) p = (done, hand_over n deleted (clear_fd (some fd) (unlink n p)))

abbrev pub with_fd : Option ℕ → (ℕ → Poller → Outcome × Poller) → Poller → Outcome × Poller
with_fd none go p = (bad_file, p)
with_fd (some fd) go p = if leb p.max_open_files fd then (too_many_files, p) else go fd p

unfoldable pub poller_del : Option ℕ → Poller → Outcome × Poller
poller_del fd = with_fd fd (λ f p. del_from_slot f (p.nodes f) p)

abbrev pub mod_slot : (fd n : ℕ) → Option Timespec → Slot → Poller → Outcome × Poller
mod_slot fd n until empty p = (no_entry, p)
mod_slot fd n until reserved p = (invalid, p)
mod_slot fd n until (holds old) p =
    let p' = link_node n until (fill_node n (some fd) (hand_over old modified (unlink old p))) in
    (done, record p' { nodes = update p'.nodes fd (holds n) })

unfoldable pub poller_mod :
    (operation : Operation)
    → (message allocates_res allocates : Bool) → (now : Timespec) → Option ℕ
    → (n : ℕ) → (timeout : Option ℕ) → Poller
    → Outcome × Poller
poller_mod operation message allocates_res allocates now fd n timeout =
    prepare operation message allocates_res allocates fd
      (λ f p. mod_slot f n (deadline now timeout) (p.nodes f) p)

abbrev pub set_timeout_of : Option Timespec → Slot → Poller → Outcome × Poller
set_timeout_of until empty p = (no_entry, p)
set_timeout_of until reserved p = (undefined, p)
set_timeout_of until (holds n) p = (done, link_node n until (unlink n p))

unfoldable pub poller_set_timeout :
    (now : Timespec) → Option ℕ → (timeout : Option ℕ) → Poller → Outcome × Poller
poller_set_timeout now fd timeout =
    with_fd fd (λ f p. set_timeout_of (deadline now timeout) (p.nodes f) p)

unfoldable pub poller_add_timer :
    (allocates : Bool) → (now value : Timespec) → ℕ → Poller → Outcome × Poller
poller_add_timer allocates now value n p =
    let until =
      carry
        (record { tv_sec = now.tv_sec + value.tv_sec; tv_nsec = now.tv_nsec + value.tv_nsec }) in
    if allocates then (done, link_node n (some until) (fill_node n none p)) else (no_memory, p)
