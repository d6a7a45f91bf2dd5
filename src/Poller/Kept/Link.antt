-- ===== src/Poller/Kept/Link.antt =====
-- A node comes to wait.
use demo_submodule.Prelude.{
  ℕ, ◌+◌, ◌≡◌, sym, ap, true, false, Option, none, some, List, [], ◌∷◌, ◌++◌, ◌==◌, if◌then◌else◌,
  count, count-append, update, arith, Bool-cases, inl, inr,
}
use demo_submodule.Poller.{
  Poller, Timespec, head_of, goes_last, place, comes_first, arm, tree_insert, insert_node,
  link_node,
}
use demo_submodule.Poller.Order.{
  IsSorted, IsSorted-append, IsSorted-place, IsSorted-update, head_of-place, count-place,
}
use demo_submodule.Poller.Kept.{IsOrdered, linked_count, timed_count, left_count}
use demo_submodule.Poller.Kept.Arm.{arm-Reaches}

-- A node that is nowhere, with the marks of a new one.
pub record IsNew (n : ℕ) (p : Poller) : Type 0 where
  pub nowhere : linked_count n p + left_count n p ≡ 0
  pub unplaced : p.in_rbtree n ≡ false
  pub unremoved : p.removed n ≡ false

IsSorted-goes_last :
    (n : ℕ) (timeout : ℕ → Timespec) (xs : List ℕ)
    → goes_last n timeout xs ≡ true
    → IsSorted timeout xs
    → IsSorted timeout (xs ++ n ∷ [])
IsSorted-goes_last n timeout [] e h = (tt, tt)
IsSorted-goes_last n timeout (x ∷ xs) e h = IsSorted-append timeout n x xs h (ground (arith, e))

append_node-IsOrdered :
    (n : ℕ) (p : Poller)
    → IsOrdered p
    → IsNew n p
    → goes_last n p.timeout p.timeo_list ≡ true
    → IsOrdered (arm n (record p { timeo_list = p.timeo_list ++ n ∷ [] }))
unfolding arm
append_node-IsOrdered n p v new last =
    let longer = λ (m : ℕ). count-append m p.timeo_list (n ∷ []) in
    let sorted = IsSorted-goes_last n p.timeout p.timeo_list last v.list_sorted in
    record {
      list_sorted = sorted;
      tree_sorted = v.tree_sorted;
      first = v.first;
      once = λ m. ground (arith, v.once m, longer m, new.nowhere);
      in_tree = v.in_tree;
      in_list = λ m h. ground (arith, h, v.in_list m, longer m, new.unplaced);
      live = λ m h. ground (arith, h, v.live m, longer m, new.unremoved);
      gone = v.gone;
      armed =
          arm-Reaches n (record p { timeo_list = p.timeo_list ++ n ∷ [] }) sorted v.tree_sorted
            v.first (ground (arith, longer n, new.nowhere))
            (λ m h. elim (Bool-cases (n == m)) [
              | inl e ↦ inl (ground (arith, e))
              | inr e ↦ inr (v.armed m (ground (arith, h, e, longer m)))
            ]);
    }

tree_node-IsOrdered :
    (n : ℕ) (p : Poller) → IsOrdered p → IsNew n p → IsOrdered (arm n (tree_insert n p))
unfolding arm tree_insert
tree_node-IsOrdered n p v new =
    let longer = λ (m : ℕ). count-place p.timeout m n p.timeo_tree in
    let sorted = IsSorted-place p.timeout n p.timeo_tree v.tree_sorted in
    let q = record p {
      timeo_tree = place p.timeout n p.timeo_tree;
      tree_first = if comes_first p.timeout n p.timeo_tree then some n else p.tree_first;
      in_rbtree = update p.in_rbtree n true;
    } in
    let first : q.tree_first ≡ head_of q.timeo_tree =
      rw v.first (sym (head_of-place p.timeout n p.timeo_tree)) in
    record {
      list_sorted = v.list_sorted;
      tree_sorted = sorted;
      first = first;
      once = λ m. ground (arith, v.once m, longer m, new.nowhere);
      in_tree = λ m h. ground (arith, h, v.in_tree m, longer m);
      in_list = λ m h. ground (arith, h, v.in_list m, v.once m, new.nowhere);
      live = λ m h. ground (arith, h, v.live m, longer m, new.unremoved);
      gone = v.gone;
      armed =
          arm-Reaches n q v.list_sorted sorted first (ground (arith, longer n, new.nowhere)) (λ m h.
            elim (Bool-cases (n == m)) [
              | inl e ↦ inl (ground (arith, e))
              | inr e ↦ inr (v.armed m (ground (arith, h, e, longer m)))
            ]);
    }

insert_node-IsOrdered : (n : ℕ) (p : Poller) → IsOrdered p → IsNew n p → IsOrdered (insert_node n p)
unfolding insert_node tree_insert
insert_node-IsOrdered n p v new = elim (Bool-cases (goes_last n p.timeout p.timeo_list)) [
  | inl e ↦ rw e (append_node-IsOrdered n p v new e)
  | inr e ↦ rw e (tree_node-IsOrdered n p v new)
]

set_deadline-IsOrdered :
    (n : ℕ) (d : Timespec) (p : Poller)
    → IsOrdered p
    → IsNew n p
    → IsOrdered (record p { timeout = update p.timeout n d })
set_deadline-IsOrdered n d p v new =
    let unlisted : count n p.timeo_list ≡ 0 = omega (arith, new.nowhere) in
    let unplaced : count n p.timeo_tree ≡ 0 = omega (arith, new.nowhere) in
    record {
      list_sorted = IsSorted-update p.timeout n d p.timeo_list unlisted v.list_sorted;
      tree_sorted = IsSorted-update p.timeout n d p.timeo_tree unplaced v.tree_sorted;
      first = v.first;
      once = v.once;
      in_tree = v.in_tree;
      in_list = v.in_list;
      live = v.live;
      gone = v.gone;
      armed = λ m h.
          let other : (m == n) ≡ false = elim (Bool-cases (m == n)) [
            | inl e ↦
                let same : m ≡ n = ground (arith, e) in
                absurd (omega (arith, h, unlisted, unplaced, ap (λ (w : ℕ). timed_count w p) same))
            | inr e ↦ e
          ] in
          rw other (v.armed m h);
    }

pub link_node-IsOrdered :
    (n : ℕ) (until : Option Timespec) (p : Poller)
    → IsOrdered p
    → IsNew n p
    → IsOrdered (link_node n until p)
unfolding link_node
link_node-IsOrdered n none p v new =
    let longer = λ (m : ℕ). count-append m p.no_timeo_list (n ∷ []) in
    record {
      list_sorted = v.list_sorted;
      tree_sorted = v.tree_sorted;
      first = v.first;
      once = λ m. ground (arith, v.once m, longer m, new.nowhere);
      in_tree = v.in_tree;
      in_list = λ m h. ground (arith, h, v.in_list m, longer m, new.unplaced);
      live = λ m h. ground (arith, h, v.live m, longer m, new.unremoved);
      gone = v.gone;
      armed = v.armed;
    }
link_node-IsOrdered n (some deadline) p v new =
    insert_node-IsOrdered n (record p { timeout = update p.timeout n deadline })
      (set_deadline-IsOrdered n deadline p v new)
      (record { nowhere = new.nowhere; unplaced = new.unplaced; unremoved = new.unremoved })

pub linked_count-link_node :
    (m n : ℕ) (until : Option Timespec) (p : Poller)
    → linked_count m (link_node n until p) ≡ (if n == m then 1 else 0) + linked_count m p
unfolding link_node insert_node tree_insert arm
linked_count-link_node m n none p = omega (arith, count-append m p.no_timeo_list (n ∷ []))
linked_count-link_node m n (some deadline) p =
    let longer = count-append m p.timeo_list (n ∷ []) in
    let placed = count-place (update p.timeout n deadline) m n p.timeo_tree in
    elim (Bool-cases (goes_last n (update p.timeout n deadline) p.timeo_list)) [
      | inl e ↦ rw e (omega (arith, longer))
      | inr e ↦ rw e (omega (arith, placed))
    ]
