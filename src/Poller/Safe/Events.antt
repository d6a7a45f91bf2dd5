-- ===== src/Poller/Safe/Events.antt =====
-- The steps of the thread and the consumer keep a poller safe.
use mathlib.Core.Path.{subst}
use demo_submodule.Prelude.{
  ℕ, zero, suc, ◌+◌, ◌<◌, ◌≤◌, ◌≡◌, refl, sym, ap, ◌∙◌, Bool, Option, none, some, List, [], ◌∷◌,
  ◌++◌, ◌==◌, if◌then◌else◌, count, count-append, arith, Bool-cases, inl, inr,
}
use demo_submodule.Poller.{
  Poller, Timespec, finished, failed, clear_fd, unlink, put_result, set_timer, first_deadline,
  head_of, earlier,
}
use demo_submodule.Poller.Order.{
  NotAfter-trans, NotAfter-earlier, IsSorted, head-NotAfter, none-count,
}
use demo_submodule.Poller.Events.{
  remove_node, finish_node, hand_piped, read_pipe, handle_pipe, handle_timeout,
}
use demo_submodule.Poller.Expire.{overdue, in_time, count-overdue, IsSorted-in_time}
use demo_submodule.Poller.Expire.Loops.{Expires, handle_timeout-Expires}
use demo_submodule.Poller.Kept.{linked_count, left_count, Reaches}
use demo_submodule.Poller.Kept.Unlink.{unlink-IsOrdered, linked_count-unlink}
use demo_submodule.Poller.Kept.Table.{IsTable-remove, IsTable-clear_all}
use demo_submodule.Poller.Safe.{IsSafe, add_result-IsOrdered, clear_fd-IsOrdered}
use demo_submodule.Poller.Safe.Slots.{unlink-IsNew}

pub finish_node-IsSafe :
    (error n : ℕ) (p : Poller)
    → 0 < linked_count n p + count n p.pipe
    → IsSafe p
    → IsSafe (finish_node error n p)
unfolding finish_node remove_node unlink
finish_node-IsSafe error n p h s = elim (Bool-cases (p.removed n)) [
  | inl e ↦ simp e s
  | inr e ↦
      let unpiped : count n p.pipe ≡ 0 = ground (arith, s.ordered.gone n, e) in
      let waits : 0 < linked_count n p = omega (arith, h, unpiped) in
      simp e (record {
        ordered =
            add_result-IsOrdered n (if error == 0 then finished else failed) error
              (clear_fd (p.fd n) (unlink n p))
              (clear_fd-IsOrdered (p.fd n) (unlink n p) (unlink-IsOrdered n p s.ordered))
              (unlink-IsNew n p s.ordered waits).nowhere;
        tabled =
            IsTable-remove (λ m. linked_count m p) (λ m. linked_count m (unlink n p)) p.fd p.nodes
              s.tabled n waits (λ m. linked_count-unlink m n p s.ordered);
      })
]

-- What a poller has after __poller_handle_timeout.
Expires-IsSafe :
    (now : Timespec) (p p' : Poller)
    → IsSafe p
    → Expires
        (overdue p.timeout now p.timeo_list ++ overdue p.timeout now p.timeo_tree)
        (in_time p.timeout now p.timeo_list)
        (in_time p.timeout now p.timeo_tree)
        p
        p'
    → IsSafe p'
Expires-IsSafe now p p' s x =
    let (_, fd, timeout, in_rbtree, removed, no_timeo_list, _, timer, pipe) = x.same in
    let late = overdue p.timeout now p.timeo_list ++ overdue p.timeout now p.timeo_tree in
    let v = s.ordered in
    let list : (m : ℕ)
        → count m p'.timeo_list + count m (overdue p.timeout now p.timeo_list)
          ≡ count m p.timeo_list =
      λ m. omega (
        arith,
        ap (λ (w : List ℕ). count m w) x.timeo_list,
        count-overdue p.timeout now m p.timeo_list,
      ) in
    let tree : (m : ℕ)
        → count m p'.timeo_tree + count m (overdue p.timeout now p.timeo_tree)
          ≡ count m p.timeo_tree =
      λ m. omega (
        arith,
        ap (λ (w : List ℕ). count m w) x.timeo_tree,
        count-overdue p.timeout now m p.timeo_tree,
      ) in
    let no_list = λ (m : ℕ). ap (λ (w : List ℕ). count m w) no_timeo_list in
    let pipes = λ (m : ℕ). ap (λ (w : List ℕ). count m w) pipe in
    let gone = λ (m : ℕ).
      count-append m (overdue p.timeout now p.timeo_list) (overdue p.timeout now p.timeo_tree) in
    let results =
      λ (m : ℕ). ap (λ (w : List ℕ). count m w) x.results ∙ count-append m p.results late in
    let marks = λ (m : ℕ). ap (λ (w : ℕ → Bool). w m) removed in
    let places = λ (m : ℕ). ap (λ (w : ℕ → Bool). w m) in_rbtree in
    let less : (m : ℕ) → linked_count m p' + count m late ≡ linked_count m p =
      λ m. omega (arith, list m, tree m, no_list m, gone m) in
    record {
      ordered = record {
        list_sorted =
            rw (timeout, x.timeo_list) (IsSorted-in_time p.timeout now p.timeo_list v.list_sorted);
        tree_sorted =
            rw (timeout, x.timeo_tree) (IsSorted-in_time p.timeout now p.timeo_tree v.tree_sorted);
        first = x.tree_first ∙ ap head_of (sym x.timeo_tree);
        once = λ m. omega (arith, v.once m, less m, results m, pipes m);
        in_tree = λ m h. places m ∙ v.in_tree m (omega (arith, h, tree m));
        in_list = λ m h. places m ∙ v.in_list m (omega (arith, h, list m, no_list m));
        live = λ m h. marks m ∙ v.live m (omega (arith, h, less m));
        gone = λ m h. marks m ∙ v.gone m (omega (arith, h, pipes m));
        armed = λ m h. rw (timer, timeout) (v.armed m (omega (arith, h, list m, tree m)));
      };
      tabled =
          rw (fd, x.nodes)
            (IsTable-clear_all late (λ m. linked_count m p) (λ m. linked_count m p') p.fd p.nodes
              s.tabled (λ m. omega (arith, v.once m)) less);
    }

pub handle_timeout-IsSafe : (now : Timespec) (p : Poller) → IsSafe p → IsSafe (handle_timeout now p)
handle_timeout-IsSafe now p s =
    Expires-IsSafe now p (handle_timeout now p) s (handle_timeout-Expires now p s.ordered)

-- The nodes of the pipe become results.
hand_piped-IsSafe :
    (ns : List ℕ) (p : Poller)
    → ((m : ℕ) → linked_count m p + left_count m p + count m ns ≤ 1)
    → IsSafe p
    → IsSafe (hand_piped ns p).1
unfolding hand_piped
hand_piped-IsSafe [] p h s = s
hand_piped-IsSafe (zero ∷ ns) p h s = hand_piped-IsSafe ns p (λ m. omega (arith, h m)) s
hand_piped-IsSafe (suc n ∷ ns) p h s =
    let v = s.ordered in
    let longer = λ (m : ℕ). count-append m p.results (suc n ∷ []) in
    hand_piped-IsSafe ns (put_result (suc n) p) (λ m. ground (arith, h m, longer m))
      (record {
        ordered = record {
          list_sorted = v.list_sorted;
          tree_sorted = v.tree_sorted;
          first = v.first;
          once = λ m. ground (arith, h m, longer m);
          in_tree = v.in_tree;
          in_list = v.in_list;
          live = v.live;
          gone = v.gone;
          armed = v.armed;
        };
        tabled = s.tabled;
      })

abbrev pub poller_of : Poller → Option (Bool × Poller) → Poller
poller_of p none = p
poller_of p (some (stop, q)) = q

read_pipe-IsSafe :
    (ns : List ℕ) (p p' : Poller) (stop : Bool)
    → p.pipe ≡ ns
    → read_pipe ns p ≡ some (stop, p')
    → IsSafe p
    → IsSafe p'
read_pipe-IsSafe [] p p' stop d e s = absurd (ground (arith, e))
read_pipe-IsSafe (n ∷ ns) p p' stop d e s =
    let v = s.ordered in
    subst (λ q. IsSafe q) (ap (poller_of p) e)
      (hand_piped-IsSafe (n ∷ ns) (record p { pipe = [] })
        (λ m. omega (arith, v.once m, ap (λ (w : List ℕ). count m w) d))
        (record {
          ordered = record {
            list_sorted = v.list_sorted;
            tree_sorted = v.tree_sorted;
            first = v.first;
            once = λ m. omega (arith, v.once m);
            in_tree = v.in_tree;
            in_list = v.in_list;
            live = v.live;
            gone = λ m h. absurd (omega (arith, h));
            armed = v.armed;
          };
          tabled = s.tabled;
        }))

pub handle_pipe-IsSafe :
    (p p' : Poller) (stop : Bool) → handle_pipe p ≡ some (stop, p') → IsSafe p → IsSafe p'
unfolding handle_pipe
handle_pipe-IsSafe p p' stop e s = read_pipe-IsSafe p.pipe p p' stop refl e s

-- The timer is set to the first of the deadlines.
first_deadline-Reaches :
    (timeout : ℕ → Timespec) (xs ys : List ℕ) (first : Option ℕ)
    → IsSorted timeout xs
    → IsSorted timeout ys
    → first ≡ head_of ys
    → (m : ℕ) → 0 < count m xs + count m ys
    → Reaches (first_deadline timeout (head_of xs) first) (timeout m)
first_deadline-Reaches timeout [] ys none sx sy e m h =
    absurd (omega (arith, h, none-count m ys (sym e)))
first_deadline-Reaches timeout [] ys (some n) sx sy e m h =
    head-NotAfter timeout m n ys sy (sym e) (omega (arith, h))
first_deadline-Reaches timeout (x ∷ xs) ys none sx sy e m h =
    head-NotAfter timeout m x (x ∷ xs) sx refl (omega (arith, h, none-count m ys (sym e)))
first_deadline-Reaches timeout (x ∷ xs) ys (some n) sx sy e m h =
    elim (Bool-cases (earlier (timeout n) (timeout x))) [
      | inl k ↦ rw k (elim (Bool-cases (count m ys == 0)) [
        | inl z ↦
            NotAfter-trans (timeout n) (timeout x) (timeout m)
              (NotAfter-earlier (timeout n) (timeout x) k)
              (head-NotAfter timeout m x (x ∷ xs) sx refl (ground (arith, h, z)))
        | inr z ↦ head-NotAfter timeout m n ys sy (sym e) (ground (arith, z))
      ])
      | inr k ↦ rw k (elim (Bool-cases (count m ys == 0)) [
        | inl z ↦ head-NotAfter timeout m x (x ∷ xs) sx refl (ground (arith, h, z))
        | inr z ↦
            NotAfter-trans (timeout x) (timeout n) (timeout m) k
              (head-NotAfter timeout m n ys sy (sym e) (ground (arith, z)))
      ])
    ]

pub set_timer-IsSafe : (p : Poller) → IsSafe p → IsSafe (set_timer p)
unfolding set_timer
set_timer-IsSafe p s =
    let v = s.ordered in
    record {
      ordered = record {
        list_sorted = v.list_sorted;
        tree_sorted = v.tree_sorted;
        first = v.first;
        once = v.once;
        in_tree = v.in_tree;
        in_list = v.in_list;
        live = v.live;
        gone = v.gone;
        armed =
            first_deadline-Reaches p.timeout p.timeo_list p.timeo_tree p.tree_first v.list_sorted
              v.tree_sorted v.first;
      };
      tabled = s.tabled;
    }

pub take_result-IsSafe :
    (p : Poller) (n : ℕ) (rest : List ℕ)
    → p.results ≡ n ∷ rest
    → IsSafe p
    → IsSafe (record p { results = rest })
take_result-IsSafe p n rest e s =
    let v = s.ordered in
    record {
      ordered = record {
        list_sorted = v.list_sorted;
        tree_sorted = v.tree_sorted;
        first = v.first;
        once = λ m. omega (arith, v.once m, ap (λ (w : List ℕ). count m w) e);
        in_tree = v.in_tree;
        in_list = v.in_list;
        live = v.live;
        gone = v.gone;
        armed = v.armed;
      };
      tabled = s.tabled;
    }
