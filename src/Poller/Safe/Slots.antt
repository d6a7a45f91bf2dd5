-- ===== src/Poller/Safe/Slots.antt =====
-- What the calls do at an entry of the table keeps a poller safe.
use mathlib.Core.Path.{subst}
use demo_submodule.Prelude.{
  ℕ, ◌+◌, ◌<◌, ◌≡◌, ◌≢◌, sym, ap, ◌∙◌, Bool, true, false, Option, some, [], ◌∷◌, ◌==◌, count-append,
  update, arith, Bool-cases, inl, inr,
}
use demo_submodule.Poller.{
  Poller, Timespec, deleted, modified, Slot, holds, reserved, with_entry, clear_fd, empty, unlink,
  link_node,
}
use demo_submodule.Poller.Calls.{
  fill_node, hand_over, add_to_slot, del_from_slot, mod_slot, set_timeout_of,
}
use demo_submodule.Poller.Kept.{IsOrdered, linked_count, left_count}
use demo_submodule.Poller.Kept.Unlink.{unlink-IsOrdered, linked_count-unlink}
use demo_submodule.Poller.Kept.Link.{IsNew, link_node-IsOrdered, linked_count-link_node}
use demo_submodule.Poller.Kept.Table.{
  IsTable, IsTable-remove, IsTable-insert, IsTable-ext, IsTable-ext_nodes, update_twice,
  empty-holds, update_here,
}
use demo_submodule.Poller.Safe.{
  IsSafe, hand_over-IsOrdered, clear_fd-IsOrdered, fill_node-IsOrdered, unplaced-unlink,
  nodes-link_node, fd-link_node,
}

-- A new node after its fields are set.
pub fill_node-IsNew :
    (n : ℕ) (fd : Option ℕ) (p : Poller)
    → linked_count n p + left_count n p ≡ 0
    → IsNew n (fill_node n fd p)
fill_node-IsNew n fd p h = record { nowhere = h; unplaced = ground arith; unremoved = ground arith }

-- A node that waits, after it was taken out.
pub unlink-IsNew : (n : ℕ) (p : Poller) → IsOrdered p → 0 < linked_count n p → IsNew n (unlink n p)
unfolding unlink
unlink-IsNew n p v h = record {
  nowhere = ground (arith, linked_count-unlink n n p v, v.once n, h);
  unplaced = unplaced-unlink n p;
  unremoved = v.live n h;
}

-- A node that comes to wait at a descriptor without one.
insert-IsSafe :
    (n f : ℕ) (until : Option Timespec) (p : Poller) (nodes : ℕ → Slot)
    → IsOrdered p
    → IsTable (λ m. linked_count m p) p.fd nodes
    → linked_count n p + left_count n p ≡ 0
    → ((m : ℕ) → nodes f ≢ holds m)
    → (registered : ℕ → Option ℕ)
    → IsSafe (record (link_node n until (fill_node n (some f) p)) {
      nodes = update nodes f (holds n);
      registered = registered;
    })
insert-IsSafe n f until p nodes v t h free registered =
    let filled = fill_node n (some f) p in
    let linked = link_node n until filled in
    let o =
      link_node-IsOrdered n until filled (fill_node-IsOrdered n (some f) p v h)
        (fill_node-IsNew n (some f) p h) in
    record {
      ordered = record {
        list_sorted = o.list_sorted;
        tree_sorted = o.tree_sorted;
        first = o.first;
        once = o.once;
        in_tree = o.in_tree;
        in_list = o.in_list;
        live = o.live;
        gone = o.gone;
        armed = o.armed;
      };
      tabled =
          subst (λ fd. IsTable (λ m. linked_count m linked) fd (update nodes f (holds n)))
            (sym (fd-link_node n until filled))
            (IsTable-insert (λ m. linked_count m p) (λ m. linked_count m linked) p.fd nodes t n f
              (omega (arith, h)) free (λ m. linked_count-link_node m n until filled));
    }

with_nodes-IsSafe :
    (nodes nodes' : ℕ → Slot) (registered : ℕ → Option ℕ) (p : Poller)
    → ((f : ℕ) → nodes' f ≡ nodes f)
    → IsSafe (record p { nodes = nodes; registered = registered })
    → IsSafe (record p { nodes = nodes' })
with_nodes-IsSafe nodes nodes' registered p same s = record {
  ordered = record {
    list_sorted = s.ordered.list_sorted;
    tree_sorted = s.ordered.tree_sorted;
    first = s.ordered.first;
    once = s.ordered.once;
    in_tree = s.ordered.in_tree;
    in_list = s.ordered.in_list;
    live = s.ordered.live;
    gone = s.ordered.gone;
    armed = s.ordered.armed;
  };
  tabled = IsTable-ext_nodes (λ m. linked_count m p) p.fd nodes nodes' s.tabled same;
}

pub add_to_slot-IsSafe :
    (is_added : Bool) (f n : ℕ) (until : Option Timespec) (slot : Slot) (p : Poller)
    → p.nodes f ≡ slot
    → linked_count n p + left_count n p ≡ 0
    → IsSafe p
    → IsSafe (add_to_slot is_added f n until slot p).1
add_to_slot-IsSafe true f n until empty p e h s =
    insert-IsSafe n f until p p.nodes s.ordered s.tabled h (λ m k. empty-holds m (sym e ∙ k))
      (update p.registered f (some n))
add_to_slot-IsSafe false f n until empty p e h s = s
add_to_slot-IsSafe is_added f n until reserved p e h s = s
add_to_slot-IsSafe is_added f n until (holds m) p e h s = s

-- A node leaves the table and its place.
leave-IsTable :
    (f n : ℕ) (p : Poller)
    → p.nodes f ≡ holds n
    → IsSafe p
    → IsTable (λ m. linked_count m (unlink n p)) p.fd (update p.nodes f empty)
leave-IsTable f n p e s =
    let (waits, at) = s.tabled.held f n e in
    subst (λ fd. IsTable (λ m. linked_count m (unlink n p)) p.fd (with_entry empty fd p.nodes)) at
      (IsTable-remove (λ m. linked_count m p) (λ m. linked_count m (unlink n p)) p.fd p.nodes
        s.tabled n waits (λ m. linked_count-unlink m n p s.ordered))

pub del_from_slot-IsSafe :
    (f : ℕ) (slot : Slot) (p : Poller)
    → p.nodes f ≡ slot
    → IsSafe p
    → IsSafe (del_from_slot f slot p).1
unfolding hand_over unlink
del_from_slot-IsSafe f empty p e s = s
del_from_slot-IsSafe f reserved p e s = s
del_from_slot-IsSafe f (holds n) p e s =
    let (waits, at) = s.tabled.held f n e in
    record {
      ordered =
          hand_over-IsOrdered n deleted (clear_fd (some f) (unlink n p))
            (clear_fd-IsOrdered (some f) (unlink n p) (unlink-IsOrdered n p s.ordered))
            (unlink-IsNew n p s.ordered waits).nowhere;
      tabled = leave-IsTable f n p e s;
    }

-- The new node is nowhere after the old one was handed over.
hand_over-nowhere :
    (old n : ℕ) (p : Poller)
    → IsOrdered p
    → 0 < linked_count old p
    → linked_count n p + left_count n p ≡ 0
    → linked_count n (hand_over old modified (unlink old p))
        + left_count n (hand_over old modified (unlink old p))
      ≡ 0
unfolding hand_over unlink
hand_over-nowhere old n p v waits h =
    let other : (old == n) ≡ false = elim (Bool-cases (old == n)) [
      | inl z ↦
          let equal : linked_count old p ≡ linked_count n p =
            ap (λ (w : ℕ). linked_count w p) (ground (arith, z)) in
          absurd (omega (arith, waits, h, equal))
      | inr z ↦ z
    ] in
    let unlinked = linked_count-unlink n old p v in
    elim (Bool-cases p.is_stopped) [
      | inl e ↦ rw e (ground (arith, unlinked, h, other, count-append n p.results (old ∷ [])))
      | inr e ↦ rw e (ground (arith, unlinked, h, other, count-append n p.pipe (old ∷ [])))
    ]

pub mod_slot-IsSafe :
    (f n : ℕ) (until : Option Timespec) (slot : Slot) (p : Poller)
    → p.nodes f ≡ slot
    → linked_count n p + left_count n p ≡ 0
    → IsSafe p
    → IsSafe (mod_slot f n until slot p).1
unfolding hand_over unlink
mod_slot-IsSafe f n until empty p e h s = s
mod_slot-IsSafe f n until reserved p e h s = s
mod_slot-IsSafe f n until (holds old) p e h s =
    let (waits, at) = s.tabled.held f old e in
    let left = hand_over old modified (unlink old p) in
    let o =
      hand_over-IsOrdered old modified (unlink old p) (unlink-IsOrdered old p s.ordered)
        (unlink-IsNew old p s.ordered waits).nowhere in
    let linked = link_node n until (fill_node n (some f) left) in
    let cleared = update p.nodes f empty in
    with_nodes-IsSafe (update cleared f (holds n)) (update linked.nodes f (holds n))
      linked.registered linked
      (λ g.
        ap (λ (t : ℕ → Slot). update t f (holds n) g)
          (nodes-link_node n until (fill_node n (some f) left))
        ∙ update_twice p.nodes f empty (holds n) g)
      (insert-IsSafe n f until left cleared o (leave-IsTable f old p e s)
        (hand_over-nowhere old n p s.ordered waits h)
        (λ m k. empty-holds m (sym (update_here p.nodes f f empty (ground arith)) ∙ k))
        linked.registered)

pub set_timeout_of-IsSafe :
    (f : ℕ) (until : Option Timespec) (slot : Slot) (p : Poller)
    → p.nodes f ≡ slot
    → IsSafe p
    → IsSafe (set_timeout_of until slot p).1
unfolding unlink
set_timeout_of-IsSafe f until empty p e s = s
set_timeout_of-IsSafe f until reserved p e s = s
set_timeout_of-IsSafe f until (holds n) p e s =
    let (waits, at) = s.tabled.held f n e in
    let q = unlink n p in
    record {
      ordered =
          link_node-IsOrdered n until q (unlink-IsOrdered n p s.ordered)
            (unlink-IsNew n p s.ordered waits);
      tabled =
          rw (fd-link_node n until q, nodes-link_node n until q)
            (IsTable-ext (λ m. linked_count m p) (λ m. linked_count m (link_node n until q)) p.fd
              p.nodes s.tabled
              (λ m.
                let linked = linked_count-link_node m n until q in
                let unlinked = linked_count-unlink m n p s.ordered in
                elim (Bool-cases (m == n)) [
                  | inl z ↦
                      let equal : linked_count m p ≡ linked_count n p =
                        ap (λ (w : ℕ). linked_count w p) (ground (arith, z)) in
                      ground (arith, linked, unlinked, s.ordered.once n, waits, equal, z)
                  | inr z ↦ ground (arith, linked, unlinked, z)
                ]));
    }
