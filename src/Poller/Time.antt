-- ===== src/Poller/Time.antt =====
-- The deadlines and the timer.
use demo_submodule.Prelude.{
  ℕ, ◌+◌, ◌*◌, ◌/◌, ◌%◌, ◌<◌, ◌≡◌, refl, sym, false, Option, none, some, leb, arith, Bool-cases,
  inl, inr,
}
use demo_submodule.Poller.{
  Poller, Timespec, carry, time_in, earlier, head_of, first_deadline, set_timer,
}
use demo_submodule.Poller.Order.{head-count, none-count}
use demo_submodule.Poller.Kept.{IsOrdered, Reaches, timed_count}
use demo_submodule.Poller.Safe.{IsSafe}
use demo_submodule.Poller.Safe.Events.{set_timer-IsSafe}

abbrev pub nanoseconds : Timespec → ℕ
nanoseconds t = t.tv_sec * 1000000000 + t.tv_nsec

carry-nanoseconds :
    (t : Timespec)
    → t.tv_nsec < 2000000000
    → ((carry t).tv_nsec < 1000000000) × (nanoseconds (carry t) ≡ nanoseconds t)
carry-nanoseconds t h = elim (Bool-cases (leb 1000000000 t.tv_nsec)) [
  | inl e ↦ simp e (ground (arith, e, h), ground (arith, e, h))
  | inr e ↦ simp e (ground (arith, e, h), refl)
]

-- The deadline is in `timeout` milliseconds, with less than a second of nanoseconds.
pub time_in-nanoseconds :
    (now : Timespec) (timeout : ℕ)
    → now.tv_nsec < 1000000000
    → ((time_in now timeout).tv_nsec < 1000000000)
      × (nanoseconds (time_in now timeout) ≡ nanoseconds now + timeout * 1000000)
unfolding time_in
time_in-nanoseconds now timeout h =
    let t : Timespec = record {
      tv_sec = now.tv_sec + timeout / 1000;
      tv_nsec = now.tv_nsec + timeout % 1000 * 1000000;
    } in
    let (small, same) = carry-nanoseconds t (omega (arith, h)) in (small, omega (arith, same))

-- What the timer is set to: the deadline of a node that waits, or off if none waits.
abbrev pub IsFirst : Option Timespec → Poller → Type 0
IsFirst none p = (n : ℕ) → timed_count n p ≡ 0
IsFirst (some t) p =
    (n : ℕ) × (0 < timed_count n p)
    × (p.timeout n ≡ t)
    × ((m : ℕ) → 0 < timed_count m p → earlier (p.timeout m) t ≡ false)

first_deadline-IsFirst :
    (p : Poller) (list first : Option ℕ)
    → list ≡ head_of p.timeo_list
    → first ≡ head_of p.timeo_tree
    → IsOrdered p
    → ((m : ℕ) → 0 < timed_count m p → Reaches (first_deadline p.timeout list first) (p.timeout m))
    → IsFirst (first_deadline p.timeout list first) p
first_deadline-IsFirst p none none e f v r =
    λ n. omega (arith, none-count n p.timeo_list (sym e), none-count n p.timeo_tree (sym f))
first_deadline-IsFirst p (some n) none e f v r =
    (n, omega (arith, head-count n p.timeo_list (sym e)), refl, r)
first_deadline-IsFirst p none (some m) e f v r =
    (m, omega (arith, head-count m p.timeo_tree (sym f)), refl, r)
first_deadline-IsFirst p (some n) (some m) e f v r =
    elim (Bool-cases (earlier (p.timeout m) (p.timeout n))) [
      | inl k ↦ (m, omega (arith, head-count m p.timeo_tree (sym f)), rw k refl, r)
      | inr k ↦ (n, omega (arith, head-count n p.timeo_list (sym e)), rw k refl, r)
    ]

-- __poller_set_timer sets the timer to the deadline of a node that waits, which no other comes
-- before, or off if no node waits until a deadline.
pub set_timer-IsFirst : (p : Poller) → IsSafe p → IsFirst (set_timer p).timer p
unfolding set_timer
set_timer-IsFirst p s =
    first_deadline-IsFirst p (head_of p.timeo_list) p.tree_first refl s.ordered.first s.ordered
      (set_timer-IsSafe p s).ordered.armed
