-- ===== src/Tests/Poller.antt =====
-- A poller with a node that waits for data and a timer that comes before it, and a result queue.
use demo_submodule.Prelude.{◌+◌, ◌*◌, ◌<◌, arith, ◌≡◌, refl, false, true, some, [], ◌∷◌, ◌++◌, ℕ}
use demo_submodule.Poller.{
  Poller, Timespec, tree_insert, arm, insert_node, link_node, time_in, set_timer,
}
use demo_submodule.Poller.Calls.{read, data_get_event, prepare, poller_add, poller_add_timer}
use demo_submodule.Poller.Life.{poller_create, poller_start}
use demo_submodule.Poller.Steps.{
  Steps, stays, then_steps, starts, adds, adds_timer, poller_create-IsSafe,
}
use demo_submodule.Poller.Events.{handle_timeout}
use demo_submodule.Poller.Expire.{overdue, in_time}
use demo_submodule.Poller.Expire.Loops.{Expires, handle_timeout-Expires}
use demo_submodule.Poller.Time.{nanoseconds, time_in-nanoseconds, IsFirst, set_timer-IsFirst}
use demo_submodule.Poller.Handed.{Deleted, poller_del-Deleted}
use demo_submodule.Poller.Queue.{PollerQueue, poller_queue_create, put_node}
use demo_submodule.Poller.Queue.Fifo.{Run, opens, puts, waiting, IsCounted, Takes, Run-Takes}
use demo_submodule.Poller.Kept.Table.{empty-holds}
use demo_submodule.Poller.Safe.{IsSafe}

abbrev at : ℕ → Timespec
at s = record { tv_sec = s; tv_nsec = 0 }

abbrev created : Poller
created = poller_create 9 3 4

abbrev started : Poller
started = (poller_start true true 5 6 created).1

-- The node 11 waits for data of the descriptor 7 until the second 12.
abbrev reading : Poller
reading = (poller_add read false true true true (at 10) (some 7) 11 (some 2000) started).1

-- The node 12 is a timer for the second 11.
abbrev timing : Poller
timing = (poller_add_timer true (at 10) (at 1) 12 reading).1

timing-Steps : Steps created timing
unfolding poller_create poller_start data_get_event poller_add prepare poller_add_timer link_node
    insert_node tree_insert arm time_in
timing-Steps =
    then_steps created started timing (starts created true true 5 6 empty-holds empty-holds) (
      then_steps started reading timing
        (adds started read false true true true (at 10) (some 7) 11 (some 2000) refl)
        (then_steps reading timing timing (adds_timer reading true (at 10) (at 1) 12 refl)
          (stays timing)))

poller_create-IsSafe_example : IsSafe timing
poller_create-IsSafe_example = poller_create-IsSafe 9 3 4 timing timing-Steps

timing-IsSafe : IsSafe timing
timing-IsSafe = poller_create-IsSafe 9 3 4 timing timing-Steps

-- At the second 12 the timer is late, and the node is not.
handle_timeout-Expires_example :
    Expires
      (overdue timing.timeout (at 12) timing.timeo_list
        ++ overdue timing.timeout (at 12) timing.timeo_tree)
      (in_time timing.timeout (at 12) timing.timeo_list)
      (in_time timing.timeout (at 12) timing.timeo_tree)
      timing
      (handle_timeout (at 12) timing)
handle_timeout-Expires_example = handle_timeout-Expires (at 12) timing timing-IsSafe.ordered

set_timer-IsFirst_example : IsFirst (set_timer timing).timer timing
set_timer-IsFirst_example = set_timer-IsFirst timing timing-IsSafe

poller_del-Deleted_example : (p' : Poller) × Deleted 7 11 timing p'
unfolding poller_create poller_start data_get_event poller_add prepare poller_add_timer link_node
    insert_node tree_insert arm time_in
poller_del-Deleted_example = poller_del-Deleted 7 11 timing timing-IsSafe refl (omega arith) refl

time_in-nanoseconds_example :
    ((time_in (record { tv_sec = 9; tv_nsec = 999000000 }) 1500).tv_nsec < 1000000000)
    × (nanoseconds (time_in (record { tv_sec = 9; tv_nsec = 999000000 }) 1500)
        ≡ nanoseconds (record { tv_sec = 9; tv_nsec = 999000000 }) + 1500 * 1000000)
time_in-nanoseconds_example =
    time_in-nanoseconds (record { tv_sec = 9; tv_nsec = 999000000 }) 1500 (omega arith)

abbrev queued : PollerQueue
queued = record (poller_queue_create 2) { put_list = 11 ∷ []; res_cnt = 1 }

queued-Run : Run (11 ∷ []) [] queued
unfolding poller_queue_create put_node
queued-Run = puts [] [] (poller_queue_create 2) queued false 11 (opens 2) refl

Run-Takes_example :
    (11 ∷ [] ≡ [] ++ waiting queued) × IsCounted queued × Takes (waiting queued) queued
Run-Takes_example = Run-Takes (11 ∷ []) [] queued queued-Run
