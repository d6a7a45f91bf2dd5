-- ===== src/Poller/Steps.antt =====
-- A poller in use: the calls of any threads and the steps of its own, in any order.
use demo_submodule.Prelude.{ℕ, ◌+◌, ◌<◌, ◌≡◌, ◌≢◌, Bool, Option, some, List, ◌∷◌, count}
use demo_submodule.Poller.{Poller, Timespec, holds, set_timer}
use demo_submodule.Poller.Calls.{
  Operation, poller_add, poller_del, poller_mod, poller_set_timeout, poller_add_timer,
}
use demo_submodule.Poller.Events.{finish_node, handle_timeout, handle_pipe}
use demo_submodule.Poller.Life.{poller_create, poller_start}
use demo_submodule.Poller.Kept.{linked_count, left_count}
use demo_submodule.Poller.Safe.{IsSafe}
use demo_submodule.Poller.Safe.Calls.{
  poller_add-IsSafe, poller_del-IsSafe, poller_mod-IsSafe, poller_set_timeout-IsSafe,
  poller_add_timer-IsSafe,
}
use demo_submodule.Poller.Safe.Begin.{poller_start-IsSafe, created-IsSafe}
use demo_submodule.Poller.Safe.Events.{
  finish_node-IsSafe, handle_timeout-IsSafe, handle_pipe-IsSafe, set_timer-IsSafe,
  take_result-IsSafe,
}

abbrev pub Nowhere : ℕ → Poller → Type 0
Nowhere n p = linked_count n p + left_count n p ≡ 0

-- malloc gives a node that is nowhere; the pipe has descriptors that no node has; a node that gets an
-- event waits or was put into the pipe; a consumer takes the first result and frees it.
pub data Step : Poller → Poller → Type 0 where
  starts :
      (p : Poller) (is_open runs : Bool) (pipe_rd pipe_wr : ℕ)
      → ((n : ℕ) → p.nodes pipe_rd ≢ holds n)
      → ((n : ℕ) → p.nodes pipe_wr ≢ holds n)
      → Step p (poller_start is_open runs pipe_rd pipe_wr p).1
  adds :
      (p : Poller) (operation : Operation) (message allocates_res allocates is_added : Bool)
      (now : Timespec) (fd : Option ℕ) (n : ℕ) (timeout : Option ℕ)
      → Nowhere n p
      → Step p (poller_add operation message allocates_res allocates is_added now fd n timeout p).1
  deletes : (p : Poller) (fd : Option ℕ) → Step p (poller_del fd p).1
  modifies :
      (p : Poller) (operation : Operation) (message allocates_res allocates : Bool) (now : Timespec)
      (fd : Option ℕ) (n : ℕ) (timeout : Option ℕ)
      → Nowhere n p
      → Step p (poller_mod operation message allocates_res allocates now fd n timeout p).1
  sets_timeout :
      (p : Poller) (now : Timespec) (fd timeout : Option ℕ)
      → Step p (poller_set_timeout now fd timeout p).1
  adds_timer :
      (p : Poller) (allocates : Bool) (now value : Timespec) (n : ℕ)
      → Nowhere n p
      → Step p (poller_add_timer allocates now value n p).1
  ends_node :
      (p : Poller) (error n : ℕ)
      → 0 < linked_count n p + count n p.pipe
      → Step p (finish_node error n p)
  expires : (p : Poller) (now : Timespec) → Step p (handle_timeout now p)
  reads_pipe : (p p' : Poller) (stop : Bool) → handle_pipe p ≡ some (stop, p') → Step p p'
  sets_timer : (p : Poller) → Step p (set_timer p)
  takes_result :
      (p : Poller) (n : ℕ) (rest : List ℕ)
      → p.results ≡ n ∷ rest
      → Step p (record p { results = rest })

pub data Steps : Poller → Poller → Type 0 where
  stays : (p : Poller) → Steps p p
  then_steps : (p q r : Poller) → Step p q → Steps q r → Steps p r

Step-IsSafe : (p q : Poller) → Step p q → IsSafe p → IsSafe q
Step-IsSafe _ _ (starts p is_open runs pipe_rd pipe_wr free free') s =
    poller_start-IsSafe p is_open runs pipe_rd pipe_wr free free' s
Step-IsSafe _ _ (adds p operation message allocates_res allocates is_added now fd n timeout h) s =
    poller_add-IsSafe operation message allocates_res allocates is_added now fd n timeout p h s
Step-IsSafe _ _ (deletes p fd) s = poller_del-IsSafe fd p s
Step-IsSafe _ _ (modifies p operation message allocates_res allocates now fd n timeout h) s =
    poller_mod-IsSafe operation message allocates_res allocates now fd n timeout p h s
Step-IsSafe _ _ (sets_timeout p now fd timeout) s = poller_set_timeout-IsSafe now fd timeout p s
Step-IsSafe _ _ (adds_timer p allocates now value n h) s =
    poller_add_timer-IsSafe allocates now value n p h s
Step-IsSafe _ _ (ends_node p error n h) s = finish_node-IsSafe error n p h s
Step-IsSafe _ _ (expires p now) s = handle_timeout-IsSafe now p s
Step-IsSafe _ _ (reads_pipe p p' stop e) s = handle_pipe-IsSafe p p' stop e s
Step-IsSafe _ _ (sets_timer p) s = set_timer-IsSafe p s
Step-IsSafe _ _ (takes_result p n rest e) s = take_result-IsSafe p n rest e s

pub Steps-IsSafe : (p q : Poller) → Steps p q → IsSafe p → IsSafe q
Steps-IsSafe _ _ (stays p) s = s
Steps-IsSafe _ _ (then_steps p q r first rest) s = Steps-IsSafe q r rest (Step-IsSafe p q first s)

-- After any steps from poller_create each node waits, is in the pipe or is a result, in one of them
-- at most and once; what waits until a deadline is in the order of the deadlines; the timer comes no
-- later than the first of them; and the table holds exactly the nodes with a descriptor that wait.
pub poller_create-IsSafe :
    (max_open_files timerfd pfd : ℕ) (p : Poller)
    → Steps (poller_create max_open_files timerfd pfd) p
    → IsSafe p
poller_create-IsSafe max_open_files timerfd pfd p steps =
    Steps-IsSafe (poller_create max_open_files timerfd pfd) p steps
      (created-IsSafe max_open_files timerfd pfd)
