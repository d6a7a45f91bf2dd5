-- ===== src/Poller/Safe/Calls.antt =====
-- The calls keep a poller safe.
use demo_submodule.Prelude.{
  ℕ, ◌+◌, ◌≡◌, refl, Bool, true, false, Option, none, some, leb, arith, Bool-cases, inl, inr,
}
use demo_submodule.Poller.{Poller, Timespec, carry, link_node}
use demo_submodule.Poller.Calls.{
  Operation, Outcome, data_get_event, deadline, fill_node, prepare, with_fd, add_to_slot,
  del_from_slot, mod_slot, set_timeout_of, allocate, poller_add, poller_del, poller_mod,
  poller_set_timeout, poller_add_timer,
}
use demo_submodule.Poller.Kept.{linked_count, left_count}
use demo_submodule.Poller.Kept.Link.{link_node-IsOrdered, linked_count-link_node}
use demo_submodule.Poller.Kept.Table.{IsTable-timer}
use demo_submodule.Poller.Safe.{IsSafe, fill_node-IsOrdered, nodes-link_node, fd-link_node}
use demo_submodule.Poller.Safe.Slots.{
  fill_node-IsNew, add_to_slot-IsSafe, del_from_slot-IsSafe, mod_slot-IsSafe, set_timeout_of-IsSafe,
}

-- What the part under the mutex keeps, a call keeps.
allocate-IsSafe :
    (need_res : Option Bool) (allocates_res allocates : Bool) (go : Poller → Outcome × Poller)
    (p : Poller)
    → IsSafe (go p).1
    → IsSafe p
    → IsSafe (allocate need_res allocates_res allocates go p).1
allocate-IsSafe none allocates_res allocates go p g s = s
allocate-IsSafe (some true) false allocates go p g s = s
allocate-IsSafe (some true) true false go p g s = s
allocate-IsSafe (some true) true true go p g s = g
allocate-IsSafe (some false) allocates_res false go p g s = s
allocate-IsSafe (some false) allocates_res true go p g s = g

prepare-IsSafe :
    (operation : Operation) (message allocates_res allocates : Bool) (fd : Option ℕ)
    (go : ℕ → Poller → Outcome × Poller) (p : Poller)
    → ((f : ℕ) → IsSafe (go f p).1)
    → IsSafe p
    → IsSafe (prepare operation message allocates_res allocates fd go p).1
unfolding prepare
prepare-IsSafe operation message allocates_res allocates none go p g s = s
prepare-IsSafe operation message allocates_res allocates (some f) go p g s =
    elim (Bool-cases (leb p.max_open_files f)) [
      | inl e ↦ simp e s
      | inr e ↦ simp e (
          allocate-IsSafe (data_get_event operation message) allocates_res allocates (go f) p (g f)
            s)
    ]

with_fd-IsSafe :
    (fd : Option ℕ) (go : ℕ → Poller → Outcome × Poller) (p : Poller)
    → ((f : ℕ) → IsSafe (go f p).1)
    → IsSafe p
    → IsSafe (with_fd fd go p).1
with_fd-IsSafe none go p g s = s
with_fd-IsSafe (some f) go p g s = elim (Bool-cases (leb p.max_open_files f)) [
  | inl e ↦ simp e s
  | inr e ↦ simp e (g f)
]

pub poller_add-IsSafe :
    (operation : Operation) (message allocates_res allocates is_added : Bool) (now : Timespec)
    (fd : Option ℕ) (n : ℕ) (timeout : Option ℕ) (p : Poller)
    → linked_count n p + left_count n p ≡ 0
    → IsSafe p
    → IsSafe (poller_add operation message allocates_res allocates is_added now fd n timeout p).1
unfolding poller_add
poller_add-IsSafe operation message allocates_res allocates is_added now fd n timeout p h s =
    prepare-IsSafe operation message allocates_res allocates fd
      (λ f q. add_to_slot is_added f n (deadline now timeout) (q.nodes f) q) p
      (λ f. add_to_slot-IsSafe is_added f n (deadline now timeout) (p.nodes f) p refl h s) s

pub poller_del-IsSafe : (fd : Option ℕ) (p : Poller) → IsSafe p → IsSafe (poller_del fd p).1
unfolding poller_del
poller_del-IsSafe fd p s =
    with_fd-IsSafe fd (λ f q. del_from_slot f (q.nodes f) q) p
      (λ f. del_from_slot-IsSafe f (p.nodes f) p refl s) s

pub poller_mod-IsSafe :
    (operation : Operation) (message allocates_res allocates : Bool) (now : Timespec)
    (fd : Option ℕ) (n : ℕ) (timeout : Option ℕ) (p : Poller)
    → linked_count n p + left_count n p ≡ 0
    → IsSafe p
    → IsSafe (poller_mod operation message allocates_res allocates now fd n timeout p).1
unfolding poller_mod
poller_mod-IsSafe operation message allocates_res allocates now fd n timeout p h s =
    prepare-IsSafe operation message allocates_res allocates fd
      (λ f q. mod_slot f n (deadline now timeout) (q.nodes f) q) p
      (λ f. mod_slot-IsSafe f n (deadline now timeout) (p.nodes f) p refl h s) s

pub poller_set_timeout-IsSafe :
    (now : Timespec) (fd timeout : Option ℕ) (p : Poller)
    → IsSafe p
    → IsSafe (poller_set_timeout now fd timeout p).1
unfolding poller_set_timeout
poller_set_timeout-IsSafe now fd timeout p s =
    with_fd-IsSafe fd (λ f q. set_timeout_of (deadline now timeout) (q.nodes f) q) p
      (λ f. set_timeout_of-IsSafe f (deadline now timeout) (p.nodes f) p refl s) s

pub poller_add_timer-IsSafe :
    (allocates : Bool) (now value : Timespec) (n : ℕ) (p : Poller)
    → linked_count n p + left_count n p ≡ 0
    → IsSafe p
    → IsSafe (poller_add_timer allocates now value n p).1
unfolding poller_add_timer
poller_add_timer-IsSafe false now value n p h s = s
poller_add_timer-IsSafe true now value n p h s =
    let filled = fill_node n none p in
    let until =
      carry
        (record { tv_sec = now.tv_sec + value.tv_sec; tv_nsec = now.tv_nsec + value.tv_nsec }) in
    record {
      ordered =
          link_node-IsOrdered n (some until) filled (fill_node-IsOrdered n none p s.ordered h)
            (fill_node-IsNew n none p h);
      tabled =
          rw (fd-link_node n (some until) filled, nodes-link_node n (some until) filled)
            (IsTable-timer (λ m. linked_count m p)
              (λ m. linked_count m (link_node n (some until) filled)) p.fd p.nodes s.tabled n
              (omega (arith, h)) (λ m. linked_count-link_node m n (some until) filled));
    }
