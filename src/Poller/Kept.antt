-- ===== src/Poller/Kept.antt =====
-- An orderly poller: each node is in one place at most, in the order of the deadlines, and the timer
-- comes no later than the first of them.
pub mod Unlink
pub mod Arm
pub mod Link
pub mod Table
use demo_submodule.Prelude.{ℕ, ◌+◌, ◌<◌, ◌≤◌, ◌≡◌, true, false, Option, none, some, count}
use demo_submodule.Poller.{Poller, Timespec, head_of}
use demo_submodule.Poller.Order.{NotAfter, IsSorted}

-- How often a node waits until a deadline, waits at all, or was handed over.
abbrev pub timed_count : ℕ → Poller → ℕ
timed_count n p = count n p.timeo_list + count n p.timeo_tree

abbrev pub linked_count : ℕ → Poller → ℕ
linked_count n p = timed_count n p + count n p.no_timeo_list

abbrev pub left_count : ℕ → Poller → ℕ
left_count n p = count n p.pipe + count n p.results

-- The timer fires no later than the deadline.
abbrev pub Reaches : Option Timespec → Timespec → Type 0
Reaches none deadline = ⊥
Reaches (some t) deadline = NotAfter t deadline

pub record IsOrdered (p : Poller) : Type 0 where
  pub list_sorted : IsSorted p.timeout p.timeo_list
  pub tree_sorted : IsSorted p.timeout p.timeo_tree
  pub first : p.tree_first ≡ head_of p.timeo_tree
  pub once : (n : ℕ) → linked_count n p + left_count n p ≤ 1
  pub in_tree : (n : ℕ) → 0 < count n p.timeo_tree → p.in_rbtree n ≡ true
  pub in_list : (n : ℕ) → 0 < count n p.timeo_list + count n p.no_timeo_list → p.in_rbtree n ≡ false
  pub live : (n : ℕ) → 0 < linked_count n p → p.removed n ≡ false
  pub gone : (n : ℕ) → 0 < count n p.pipe → p.removed n ≡ true
  pub armed : (n : ℕ) → 0 < timed_count n p → Reaches p.timer (p.timeout n)
