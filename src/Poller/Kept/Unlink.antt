-- ===== src/Poller/Kept/Unlink.antt =====
-- Taking a node out.
use demo_submodule.Prelude.{
  ℕ, ◌+◌, ◌≡◌, sym, ◌==◌, if◌then◌else◌, count, count-erase, arith, Bool-cases, inl, inr,
}
use demo_submodule.Poller.{Poller, unlink, tree_erase}
use demo_submodule.Poller.Order.{IsSorted-erase, head_of-erase}
use demo_submodule.Poller.Kept.{IsOrdered, linked_count}

tree_erase-IsOrdered : (n : ℕ) (p : Poller) → IsOrdered p → IsOrdered (tree_erase n p)
unfolding tree_erase
tree_erase-IsOrdered n p v = record {
  list_sorted = v.list_sorted;
  tree_sorted = IsSorted-erase p.timeout n p.timeo_tree v.tree_sorted;
  first = rw v.first (sym (head_of-erase n p.timeo_tree));
  once = λ m. ground (arith, v.once m, count-erase m n p.timeo_tree);
  in_tree = λ m h. ground (arith, h, v.in_tree m, v.once m, count-erase m n p.timeo_tree);
  in_list = λ m h. ground (arith, h, v.in_list m);
  live = λ m h. v.live m (ground (arith, h, count-erase m n p.timeo_tree));
  gone = v.gone;
  armed = λ m h. v.armed m (ground (arith, h, count-erase m n p.timeo_tree));
}

pub unlink-IsOrdered : (n : ℕ) (p : Poller) → IsOrdered p → IsOrdered (unlink n p)
unfolding unlink tree_erase
unlink-IsOrdered n p v = elim (Bool-cases (p.in_rbtree n)) [
  | inl e ↦ rw e (tree_erase-IsOrdered n p v)
  | inr e ↦
      let list = λ (m : ℕ). count-erase m n p.timeo_list in
      let no_list = λ (m : ℕ). count-erase m n p.no_timeo_list in
      rw e (record {
        list_sorted = IsSorted-erase p.timeout n p.timeo_list v.list_sorted;
        tree_sorted = v.tree_sorted;
        first = v.first;
        once = λ m. ground (arith, v.once m, list m, no_list m);
        in_tree = v.in_tree;
        in_list = λ m h. v.in_list m (ground (arith, h, list m, no_list m));
        live = λ m h. v.live m (ground (arith, h, list m, no_list m));
        gone = v.gone;
        armed = λ m h. v.armed m (ground (arith, h, list m));
      })
]

-- The node is linked no more, the others as before.
pub linked_count-unlink :
    (m n : ℕ) (p : Poller)
    → IsOrdered p
    → linked_count m (unlink n p) ≡ (if m == n then 0 else linked_count m p)
unfolding unlink tree_erase
linked_count-unlink m n p v = elim (Bool-cases (p.in_rbtree n)) [
  | inl e ↦
      let none_listed : count n p.timeo_list + count n p.no_timeo_list ≡ 0 =
        ground (arith, v.in_list n, e) in
      rw e (ground (arith, v.once m, count-erase m n p.timeo_tree, none_listed))
  | inr e ↦
      let none_placed : count n p.timeo_tree ≡ 0 = ground (arith, v.in_tree n, e) in
      rw e (
        ground (
          arith,
          v.once m,
          count-erase m n p.timeo_list,
          count-erase m n p.no_timeo_list,
          none_placed,
        ))
]
