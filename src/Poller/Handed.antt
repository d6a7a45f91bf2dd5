-- ===== src/Poller/Handed.antt =====
-- What poller_del leaves of a node.
use demo_submodule.Prelude.{
  ℕ, ◌<◌, ◌≡◌, refl, ap, Bool, true, false, some, [], ◌∷◌, ◌++◌, if◌then◌else◌, leb, arith,
}
use demo_submodule.Poller.{Poller, deleted, holds, clear_fd, empty, unlink}
use demo_submodule.Poller.Calls.{done, poller_del, hand_over}
use demo_submodule.Poller.Events.{remove_node, finish_node, hand_finished}
use demo_submodule.Poller.Kept.{linked_count}
use demo_submodule.Poller.Kept.Unlink.{linked_count-unlink}
use demo_submodule.Poller.Safe.{IsSafe}

-- What poller_del leaves, of a node that the thread may still hold.
pub record Deleted (f n : ℕ) (p p' : Poller) : Type 0 where
  pub is_done : poller_del (some f) p ≡ (done, p')
  pub cleared : p'.nodes f ≡ empty
  pub unlinked : linked_count n p' ≡ 0
  pub piped : p'.pipe ≡ p.pipe ++ n ∷ []
  pub is_deleted : p'.state n ≡ deleted
  pub not_finished : (error : ℕ) → finish_node error n p' ≡ p'

-- poller_del of a descriptor with a node, while the thread of a safe poller runs: the call succeeds,
-- the descriptor is free, the node is in neither the lists nor the tree, it is marked as deleted and
-- in the pipe behind the nodes there, and __poller_handle_connect, for an event that the thread
-- still has for the node, does not hand it over and changes nothing.
pub poller_del-Deleted :
    (f n : ℕ) (p : Poller)
    → IsSafe p
    → p.is_stopped ≡ false
    → f < p.max_open_files
    → p.nodes f ≡ holds n
    → (p' : Poller) × Deleted f n p p'
unfolding poller_del hand_over unlink finish_node remove_node
poller_del-Deleted f n p s runs small e =
    let inside : leb p.max_open_files f ≡ false = ground (arith, small) in
    let p' = hand_over n deleted (clear_fd (some f) (unlink n p)) in
    (
      p',
      record {
        is_done = simp (inside, e) refl;
        cleared = ground arith;
        unlinked = ground (arith, linked_count-unlink n n p s.ordered);
        piped = simp runs refl;
        is_deleted = ground arith;
        not_finished = λ error.
            let gone : p'.removed n ≡ true = ground (arith, runs) in
            ap
              (λ (b : Bool).
                hand_finished error n
                  (if b then (true, p') else (false, clear_fd (p'.fd n) (unlink n p'))))
              gone;
      },
    )
