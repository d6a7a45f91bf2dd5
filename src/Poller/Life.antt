-- ===== src/Poller/Life.antt =====
-- How a poller begins: poller_create and poller_start.
use demo_submodule.Prelude.{ℕ, Bool, true, false, not, ◌&&◌, none, [], ◌==◌, if◌then◌else◌, update}
use demo_submodule.Poller.{Poller, empty, reserved, success}

-- The poller that poller_create returns where its allocations and calls succeed.
unfoldable pub poller_create : (max_open_files timerfd pfd : ℕ) → Poller
poller_create max_open_files timerfd pfd = record {
  max_open_files = if max_open_files == 0 then 65536 else max_open_files;
  fd = λ _. none;
  timeout = λ _. record { tv_sec = 0; tv_nsec = 0 };
  in_rbtree = λ _. false;
  removed = λ _. false;
  state = λ _. success;
  error = λ _. 0;
  nodes = update (update (λ _. empty) timerfd reserved) pfd reserved;
  timeo_list = [];
  timeo_tree = [];
  tree_first = none;
  no_timeo_list = [];
  is_stopped = true;
  registered = λ _. none;
  timer = none;
  pipe = [];
  results = [];
}

-- The value 0 or -1, where `is_open` is whether the pipe could be opened and added, and `runs`
-- whether the thread was created.
unfoldable pub poller_start : (is_open runs : Bool) → (pipe_rd pipe_wr : ℕ) → Poller → Bool × Poller
poller_start is_open runs pipe_rd pipe_wr p =
    if is_open && runs
    then (
      true,
      record p {
        nodes = update (update p.nodes pipe_rd reserved) pipe_wr reserved;
        is_stopped = false;
      },
    )
    else (not p.is_stopped, p)
