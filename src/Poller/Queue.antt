-- ===== src/Poller/Queue.antt =====
-- The result queue of poller.c: producers put nodes to the end of one list, consumers take them from
-- another, and the lists are exchanged when that one is empty. `none` is a call that waits.
pub mod Fifo
use demo_submodule.Prelude.{
  ℕ, zero, suc, ◌+◌, ◌-◌, ◌^◌, Bool, true, false, not, ◌&&◌, Option, none, some, List, [], ◌∷◌,
  ◌++◌, ltb, ◌==◌, if◌then◌else◌, is_empty,
}

pub record PollerQueue : Type 0 where
  pub res_max : ℕ
  pub res_cnt : ℕ
  pub nonblock : Bool
  pub get_list : List ℕ
  pub put_list : List ℕ

unfoldable pub poller_queue_create : ℕ → PollerQueue
poller_queue_create maxlen = record {
  res_max = maxlen;
  res_cnt = 0;
  nonblock = false;
  get_list = [];
  put_list = [];
}

pub poller_queue_set_nonblock : PollerQueue → PollerQueue
poller_queue_set_nonblock q = record q { nonblock = true }

pub poller_queue_set_block : PollerQueue → PollerQueue
poller_queue_set_block q = record q { nonblock = false }

-- `res_max - 1` in a size_t
abbrev pub last_place : ℕ → ℕ
last_place zero = 2 ^ 64 - 1
last_place (suc n) = n

-- The part of __poller_add_result under `put_mutex`, where `is_stopping` is that of the poller.
unfoldable pub put_node : (is_stopping : Bool) → ℕ → PollerQueue → Option PollerQueue
put_node is_stopping n q =
    if ltb (last_place q.res_max) q.res_cnt && not is_stopping
    then none
    else some (record q { put_list = q.put_list ++ n ∷ []; res_cnt = q.res_cnt + 1 })

-- __poller_queue_swap
pub swap : PollerQueue → Option (ℕ × PollerQueue)
swap q =
    if (q.res_cnt == 0) && not q.nonblock
    then none
    else some (q.res_cnt, record q { get_list = q.put_list; put_list = q.get_list; res_cnt = 0 })

-- The first node of `get_list`, which is taken; without one, ENOENT.
abbrev pub take_first : List ℕ → PollerQueue → Option ℕ × PollerQueue
take_first [] q = (none, q)
take_first (n ∷ ns) q = (some n, record q { get_list = ns })

abbrev pub after_swap : Option (ℕ × PollerQueue) → Option (Option ℕ × PollerQueue)
after_swap none = none
after_swap (some (cnt, q)) = some (if ltb 0 cnt then take_first q.get_list q else (none, q))

pub poller_queue_get : PollerQueue → Option (Option ℕ × PollerQueue)
poller_queue_get q =
    if not (is_empty q.get_list) then some (take_first q.get_list q) else after_swap (swap q)
