-- ===== src/Poller.antt =====
-- The poller of workflow-step-by-step/src/kernel/poller.h and poller.c: which nodes wait for an event
-- or a deadline, and which are handed over as results. A node (a `struct __poller_node *`) is a
-- positive number and its fields are functions of it. The red-black tree of rbtree.c, a copy of that
-- of Linux, is seen as the sequence of its nodes in order: the descent by comparisons comes to the
-- place before the first later node. A call of epoll_ctl, timerfd_settime or write is a change of
-- the state. A descriptor or a timeout is `none` for a negative number. A mutex makes a call one step.
pub mod Calls
pub mod Events
pub mod Life
pub mod Order
pub mod Kept
pub mod Expire
pub mod Safe
pub mod Steps
pub mod Time
pub mod Handed
pub mod Queue
use demo_submodule.Prelude.{
  ℕ, ◌+◌, ◌-◌, ◌*◌, ◌/◌, ◌%◌, Bool, true, false, not, ◌&&◌, ◌||◌, Option, none, some, List, [], ◌∷◌,
  ◌++◌, ltb, leb, ◌==◌, if◌then◌else◌, update, erase,
}

pub record Timespec : Type 0 where
  pub tv_sec : ℕ
  pub tv_nsec : ℕ

-- PR_ST_SUCCESS and the others
pub data NodeState : Type 0 where
  success finished failed deleted modified stopped : NodeState

-- An entry of `nodes`: NULL, POLLER_NODE_ERROR, or a node.
pub data Slot : Type 0 where
  empty reserved : Slot
  holds : ℕ → Slot

pub record Poller : Type 0 where
  pub max_open_files : ℕ
  -- the fields of the nodes
  pub fd : ℕ → Option ℕ
  pub timeout : ℕ → Timespec
  pub in_rbtree : ℕ → Bool
  pub removed : ℕ → Bool
  pub state : ℕ → NodeState
  pub error : ℕ → ℕ
  -- the fields of the poller
  pub nodes : ℕ → Slot
  pub timeo_list : List ℕ
  pub timeo_tree : List ℕ
  pub tree_first : Option ℕ
  pub no_timeo_list : List ℕ
  pub is_stopped : Bool
  -- what epoll gives back for a descriptor, the time that timerfd is set to, what is in the pipe
  pub registered : ℕ → Option ℕ
  pub timer : Option Timespec
  pub pipe : List ℕ
  -- the nodes that were put into the result queue
  pub results : List ℕ

-- __timeout_cmp(a, b) < 0
abbrev pub earlier : Timespec → Timespec → Bool
earlier a b = ltb a.tv_sec b.tv_sec || (a.tv_sec == b.tv_sec && ltb a.tv_nsec b.tv_nsec)

abbrev pub carry : Timespec → Timespec
carry t =
    if leb 1000000000 t.tv_nsec
    then record { tv_sec = t.tv_sec + 1; tv_nsec = t.tv_nsec - 1000000000 }
    else t

-- __poller_node_set_timeout: the time in `timeout` milliseconds.
unfoldable pub time_in : (now : Timespec) → ℕ → Timespec
time_in now timeout = carry (record {
  tv_sec = now.tv_sec + timeout / 1000;
  tv_nsec = now.tv_nsec + timeout % 1000 * 1000000;
})

abbrev pub head_of : List ℕ → Option ℕ
head_of [] = none
head_of (x ∷ xs) = some x

abbrev pub last_of : ℕ → List ℕ → ℕ
last_of x [] = x
last_of x (y ∷ ys) = last_of y ys

abbrev pub is_node : ℕ → Option ℕ → Bool
is_node n none = false
is_node n (some m) = m == n

-- rb_next of `n`
abbrev pub next_of : ℕ → List ℕ → Option ℕ
next_of n [] = none
next_of n (x ∷ xs) = if x == n then head_of xs else next_of n xs

-- The place of a node in the tree.
abbrev pub place : (ℕ → Timespec) → ℕ → List ℕ → List ℕ
place timeout n [] = n ∷ []
place timeout n (x ∷ xs) =
    if earlier (timeout n) (timeout x) then n ∷ x ∷ xs else x ∷ place timeout n xs

-- `first`: the descent never went right.
abbrev pub comes_first : (ℕ → Timespec) → ℕ → List ℕ → Bool
comes_first timeout n [] = true
comes_first timeout n (x ∷ xs) = earlier (timeout n) (timeout x)

-- __poller_tree_insert
unfoldable pub tree_insert : ℕ → Poller → Poller
tree_insert n p = record p {
  timeo_tree = place p.timeout n p.timeo_tree;
  tree_first = if comes_first p.timeout n p.timeo_tree then some n else p.tree_first;
  in_rbtree = update p.in_rbtree n true;
}

-- __poller_tree_erase
pub tree_erase : ℕ → Poller → Poller
tree_erase n p = record p {
  timeo_tree = erase n p.timeo_tree;
  tree_first = if is_node n p.tree_first then next_of n p.timeo_tree else p.tree_first;
  in_rbtree = update p.in_rbtree n false;
}

-- A node leaves the tree, by __poller_tree_erase, or the list that it is in, by list_del. This is
-- what the code does for a node that is in the tree or in one of the two lists; rb_erase and list_del
-- of another node are undefined and not modelled.
unfoldable pub unlink : ℕ → Poller → Poller
unlink n p =
    let in_tree = p.in_rbtree n in
    let erased = tree_erase n p in
    record p {
      timeo_tree = if in_tree then erased.timeo_tree else p.timeo_tree;
      tree_first = if in_tree then erased.tree_first else p.tree_first;
      in_rbtree = if in_tree then erased.in_rbtree else p.in_rbtree;
      timeo_list = if in_tree then p.timeo_list else erase n p.timeo_list;
      no_timeo_list = if in_tree then p.no_timeo_list else erase n p.no_timeo_list;
    }

-- Whether a node comes to the end of `timeo_list`.
abbrev pub goes_last : ℕ → (ℕ → Timespec) → List ℕ → Bool
goes_last n timeout [] = true
goes_last n timeout (x ∷ xs) = not (earlier (timeout n) (timeout (last_of x xs)))

-- The time that timerfd has after __poller_set_timerfd for the node, if the node comes before `end`,
-- the first node of the other container.
abbrev pub timer_before : ℕ → Option ℕ → Poller → Option Timespec
timer_before n none p = some (p.timeout n)
timer_before n (some end) p =
    if earlier (p.timeout n) (p.timeout end) then some (p.timeout n) else p.timer

-- The timer is set if the node is the first of all.
unfoldable pub arm : ℕ → Poller → Poller
arm n p = record p {
  timer =
      if is_node n (head_of p.timeo_list)
      then timer_before n p.tree_first p
      else if is_node n p.tree_first
      then timer_before n (head_of p.timeo_list) p
      else p.timer;
}

-- __poller_insert_node: a node comes to the end of `timeo_list`, or into the tree.
unfoldable pub insert_node : ℕ → Poller → Poller
insert_node n p =
    let last = goes_last n p.timeout p.timeo_list in
    let placed = tree_insert n p in
    arm n (record p {
      timeo_list = if last then p.timeo_list ++ n ∷ [] else p.timeo_list;
      timeo_tree = if last then p.timeo_tree else placed.timeo_tree;
      tree_first = if last then p.tree_first else placed.tree_first;
      in_rbtree = if last then p.in_rbtree else placed.in_rbtree;
    })

-- A node comes to wait until a deadline, or without one.
unfoldable pub link_node : ℕ → Option Timespec → Poller → Poller
link_node n none p = record p { no_timeo_list = p.no_timeo_list ++ n ∷ [] }
link_node n (some deadline) p = insert_node n (record p { timeout = update p.timeout n deadline })

-- __poller_add_result; Queue.antt tells how a thread waits in it.
abbrev pub put_result : ℕ → Poller → Poller
put_result n p = record p { results = p.results ++ n ∷ [] }

-- The same with what its caller has put into the node.
abbrev pub add_result : ℕ → NodeState → ℕ → Poller → Poller
add_result n state error p =
    put_result n (record p { state = update p.state n state; error = update p.error n error })

-- A table in which the entry of a descriptor, if there is one, is set.
abbrev pub with_entry {ℓ} : {A : Type ℓ} → A → Option ℕ → (ℕ → A) → ℕ → A
with_entry a none table = table
with_entry a (some fd) table = update table fd a

-- The node of the descriptor is forgotten, and __poller_del_fd.
abbrev pub clear_fd : Option ℕ → Poller → Poller
clear_fd fd p = record p {
  nodes = with_entry empty fd p.nodes;
  registered = with_entry none fd p.registered;
}

-- The thread's __poller_set_timer: the timer is set to the first deadline, or off.
abbrev pub first_deadline : (ℕ → Timespec) → Option ℕ → Option ℕ → Option Timespec
first_deadline timeout none none = none
first_deadline timeout (some n) none = some (timeout n)
first_deadline timeout none (some m) = some (timeout m)
first_deadline timeout (some n) (some m) =
    some (if earlier (timeout m) (timeout n) then timeout m else timeout n)

pub set_timer : Poller → Poller
set_timer p = record p { timer = first_deadline p.timeout (head_of p.timeo_list) p.tree_first }
