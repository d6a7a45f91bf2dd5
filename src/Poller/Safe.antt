-- ===== src/Poller/Safe.antt =====
-- A safe poller: orderly, with a true table. What the parts of the calls keep of it.
pub mod Slots
pub mod Calls
pub mod Events
pub mod Begin
pub mod Thread
use demo_submodule.Prelude.{
  ℕ, ◌+◌, ◌-◌, ◌≡◌, refl, false, Option, none, some, [], ◌∷◌, count-append, arith, Bool-cases, inl,
  inr,
}
use demo_submodule.Poller.{
  Poller, Timespec, NodeState, clear_fd, unlink, tree_erase, link_node, insert_node, arm,
  add_result,
}
use demo_submodule.Poller.Calls.{fill_node, hand_over}
use demo_submodule.Poller.Kept.{IsOrdered, linked_count, left_count}
use demo_submodule.Poller.Kept.Table.{IsTable}

abbrev pub IsTabled : Poller → Type 0
IsTabled p = IsTable (λ n. linked_count n p) p.fd p.nodes

pub record IsSafe (p : Poller) : Type 0 where
  pub ordered : IsOrdered p
  pub tabled : IsTabled p

-- A result node is of no matter to the places of the others.
pub add_result-IsOrdered :
    (n : ℕ) (state : NodeState) (error : ℕ) (p : Poller)
    → IsOrdered p
    → linked_count n p + left_count n p ≡ 0
    → IsOrdered (add_result n state error p)
add_result-IsOrdered n state error p v h =
    let longer = λ (m : ℕ). count-append m p.results (n ∷ []) in
    record {
      list_sorted = v.list_sorted;
      tree_sorted = v.tree_sorted;
      first = v.first;
      once = λ m. ground (arith, v.once m, longer m, h);
      in_tree = v.in_tree;
      in_list = v.in_list;
      live = v.live;
      gone = v.gone;
      armed = v.armed;
    }

pub hand_over-IsOrdered :
    (n : ℕ) (state : NodeState) (p : Poller)
    → IsOrdered p
    → linked_count n p + left_count n p ≡ 0
    → IsOrdered (hand_over n state p)
unfolding hand_over
hand_over-IsOrdered n state p v h = elim (Bool-cases p.is_stopped) [
  | inl e ↦
      let r = add_result-IsOrdered n state 0 p v h in
      simp e (record {
        list_sorted = r.list_sorted;
        tree_sorted = r.tree_sorted;
        first = r.first;
        once = r.once;
        in_tree = r.in_tree;
        in_list = r.in_list;
        live = r.live;
        gone = r.gone;
        armed = r.armed;
      })
  | inr e ↦
      let longer = λ (m : ℕ). count-append m p.pipe (n ∷ []) in
      simp e (record {
        list_sorted = v.list_sorted;
        tree_sorted = v.tree_sorted;
        first = v.first;
        once = λ m. ground (arith, v.once m, longer m, h);
        in_tree = v.in_tree;
        in_list = v.in_list;
        live = λ m k. ground (arith, k, v.live m, h);
        gone = λ m k. ground (arith, k, v.gone m, longer m);
        armed = v.armed;
      })
]

pub clear_fd-IsOrdered : (fd : Option ℕ) (p : Poller) → IsOrdered p → IsOrdered (clear_fd fd p)
clear_fd-IsOrdered fd p v = record {
  list_sorted = v.list_sorted;
  tree_sorted = v.tree_sorted;
  first = v.first;
  once = v.once;
  in_tree = v.in_tree;
  in_list = v.in_list;
  live = v.live;
  gone = v.gone;
  armed = v.armed;
}

-- A new node that is not linked yet.
pub fill_node-IsOrdered :
    (n : ℕ) (fd : Option ℕ) (p : Poller)
    → IsOrdered p
    → linked_count n p + left_count n p ≡ 0
    → IsOrdered (fill_node n fd p)
fill_node-IsOrdered n fd p v h = record {
  list_sorted = v.list_sorted;
  tree_sorted = v.tree_sorted;
  first = v.first;
  once = v.once;
  in_tree = λ m k. ground (arith, k, v.in_tree m, h);
  in_list = λ m k. ground (arith, k, v.in_list m, h);
  live = λ m k. ground (arith, k, v.live m, h);
  gone = λ m k. ground (arith, k, v.gone m, h);
  armed = v.armed;
}

pub unplaced-unlink : (n : ℕ) (p : Poller) → (unlink n p).in_rbtree n ≡ false
unfolding unlink tree_erase
unplaced-unlink n p = ground arith

pub nodes-link_node :
    (n : ℕ) (until : Option Timespec) (p : Poller) → (link_node n until p).nodes ≡ p.nodes
unfolding link_node insert_node arm
nodes-link_node n none p = refl
nodes-link_node n (some deadline) p = refl

pub fd-link_node : (n : ℕ) (until : Option Timespec) (p : Poller) → (link_node n until p).fd ≡ p.fd
unfolding link_node insert_node arm
fd-link_node n none p = refl
fd-link_node n (some deadline) p = refl
