-- ===== src/Poller/Expire/Loops.antt =====
-- The three loops of __poller_handle_timeout.
use mathlib.Core.Path.{subst}
use demo_submodule.Prelude.{
  ℕ, zero, suc, ◌≤◌, ◌≡◌, refl, sym, ap, ◌∙◌, true, Option, none, List, [], ◌∷◌, ◌++◌, append_assoc,
  append-nil, ◌==◌, erase, length, arith, Bool-cases, inl, inr, ltb, count, count-append, update,
  if◌then◌else◌,
}
use demo_submodule.Poller.{
  Poller, Timespec, empty, failed, add_result, earlier, head_of, next_of, clear_fd, with_entry,
}
use demo_submodule.Poller.Order.{IsSorted}
use demo_submodule.Poller.Kept.{IsOrdered}
use demo_submodule.Poller.Events.{
  expire_list, leave_tree, expire_tree, hand_expired, handle_timeout,
}
use demo_submodule.Poller.Expire.{overdue, in_time, clear_all, Same, NotAfter-overdue}

-- What the first loop leaves of the list: the nodes that it moves, and the poller.
record ListExpired (gone kept : List ℕ) (p : Poller) (moved : List ℕ) (p' : Poller) : Type 0 where
  moves : moved ≡ gone
  keeps : p'.timeo_list ≡ kept
  timeo_tree : p'.timeo_tree ≡ p.timeo_tree
  tree_first : p'.tree_first ≡ p.tree_first
  nodes : p'.nodes ≡ clear_all empty p.fd gone p.nodes
  registered : p'.registered ≡ clear_all none p.fd gone p.registered
  results : p'.results ≡ p.results
  state : p'.state ≡ p.state
  error : p'.error ≡ p.error
  same : Same p p'

expire_list_lem :
    (now : Timespec) (xs : List ℕ) (p : Poller)
    → IsSorted p.timeout xs
    → p.timeo_list ≡ xs
    → ListExpired
        (overdue p.timeout now xs)
        (in_time p.timeout now xs)
        p
        (expire_list now xs p).0
        (expire_list now xs p).1
unfolding expire_list
expire_list_lem now [] p s e = record {
  moves = refl;
  keeps = e;
  timeo_tree = refl;
  tree_first = refl;
  nodes = refl;
  registered = refl;
  results = refl;
  state = refl;
  error = refl;
  same = (refl, refl, refl, refl, refl, refl, refl, refl, refl);
}
expire_list_lem now (n ∷ rest) p (before, s) e = elim (Bool-cases (earlier (p.timeout n) now)) [
  | inl k ↦
      let r =
        expire_list_lem now rest (clear_fd (p.fd n) (record p { timeo_list = rest })) s refl in
      rw k (record {
        moves = ap (λ (w : List ℕ). n ∷ w) r.moves;
        keeps = r.keeps;
        timeo_tree = r.timeo_tree;
        tree_first = r.tree_first;
        nodes = r.nodes;
        registered = r.registered;
        results = r.results;
        state = r.state;
        error = r.error;
        same = r.same;
      })
  | inr k ↦
      let (none_left, all_kept) = NotAfter-overdue p.timeout now (p.timeout n) rest before k in
      rw (k, none_left, all_kept)
        (record {
          moves = refl;
          keeps = e;
          timeo_tree = refl;
          tree_first = refl;
          nodes = refl;
          registered = refl;
          results = refl;
          state = refl;
          error = refl;
          same = (refl, refl, refl, refl, refl, refl, refl, refl, refl);
        })
]

-- The same of the second loop.
record TreeExpired (gone kept : List ℕ) (p : Poller) (moved : List ℕ) (p' : Poller) : Type 0 where
  moves : moved ≡ gone
  keeps : p'.timeo_tree ≡ kept
  tree_first : p'.tree_first ≡ head_of kept
  timeo_list : p'.timeo_list ≡ p.timeo_list
  nodes : p'.nodes ≡ clear_all empty p.fd gone p.nodes
  registered : p'.registered ≡ clear_all none p.fd gone p.registered
  results : p'.results ≡ p.results
  state : p'.state ≡ p.state
  error : p'.error ≡ p.error
  same : Same p p'

expire_tree_lem :
    (now : Timespec) (xs : List ℕ) (fuel : ℕ) (p : Poller)
    → length xs ≤ fuel
    → IsSorted p.timeout xs
    → p.timeo_tree ≡ xs
    → p.tree_first ≡ head_of xs
    → TreeExpired
        (overdue p.timeout now xs)
        (in_time p.timeout now xs)
        p
        (expire_tree now fuel p).0
        (expire_tree now fuel p).1
unfolding expire_tree
expire_tree_lem now [] zero p l s e f = record {
  moves = refl;
  keeps = e;
  tree_first = f;
  timeo_list = refl;
  nodes = refl;
  registered = refl;
  results = refl;
  state = refl;
  error = refl;
  same = (refl, refl, refl, refl, refl, refl, refl, refl, refl);
}
expire_tree_lem now [] (suc fuel) p l s e f = simp f (record {
  moves = refl;
  keeps = e;
  tree_first = f;
  timeo_list = refl;
  nodes = refl;
  registered = refl;
  results = refl;
  state = refl;
  error = refl;
  same = (refl, refl, refl, refl, refl, refl, refl, refl, refl);
})
expire_tree_lem now (n ∷ rest) zero p l s e f = absurd (omega arith)
expire_tree_lem now (n ∷ rest) (suc fuel) p l (before, s) e f =
    let here : (n == n) ≡ true = ground arith in
    let left : erase n p.timeo_tree ≡ rest = rw (e, here) refl in
    let next : next_of n p.timeo_tree ≡ head_of rest = rw (e, here) refl in
    simp f (elim (Bool-cases (earlier (p.timeout n) now)) [
      | inl k ↦
          let r = expire_tree_lem now rest fuel (leave_tree n p) (omega (arith, l)) s left next in
          rw k (record {
            moves = ap (λ (w : List ℕ). n ∷ w) r.moves;
            keeps = r.keeps;
            tree_first = r.tree_first;
            timeo_list = r.timeo_list;
            nodes = r.nodes;
            registered = r.registered;
            results = r.results;
            state = r.state;
            error = r.error;
            same = r.same;
          })
      | inr k ↦
          let (none_left, all_kept) = NotAfter-overdue p.timeout now (p.timeout n) rest before k in
          rw (k, none_left, all_kept)
            (record {
              moves = refl;
              keeps = e;
              tree_first = f;
              timeo_list = refl;
              nodes = refl;
              registered = refl;
              results = refl;
              state = refl;
              error = refl;
              same = (refl, refl, refl, refl, refl, refl, refl, refl, refl);
            })
    ])

-- The third loop.
abbrev Others : Poller → Poller → Type 0
Others p p' =
    (p'.timeo_list ≡ p.timeo_list)
    × (p'.timeo_tree ≡ p.timeo_tree)
    × (p'.tree_first ≡ p.tree_first)
    × (p'.nodes ≡ p.nodes)
    × (p'.registered ≡ p.registered)
    × Same p p'

-- A value that the nodes of a list have got.
abbrev pub marked {ℓ} : {A : Type ℓ} → A → List ℕ → (ℕ → A) → ℕ → A
marked a ns f m = if ltb 0 (count m ns) then a else f m

marked-∷ :
    {A : Type 0} (a : A) (n : ℕ) (ns : List ℕ) (f : ℕ → A) (m : ℕ)
    → marked a ns (update f n a) m ≡ marked a (n ∷ ns) f m
marked-∷ a n ns f m = ground arith

marked_twice :
    {A : Type 0} (a : A) (xs xs' ys ys' : List ℕ) (f g h : ℕ → A) (m : ℕ)
    → xs ≡ xs'
    → ys ≡ ys'
    → f ≡ h
    → g m ≡ marked a xs f m
    → marked a ys g m ≡ marked a (xs' ++ ys') h m
marked_twice a xs xs' ys ys' f g h m d e k i =
    ground (arith, count-append m xs' ys', ap (count m) d, ap (count m) e, i, ap (λ w. w m) k)

-- What the third loop sets.
record Handed (ns : List ℕ) (p p' : Poller) : Type 0 where
  results : p'.results ≡ p.results ++ ns
  state : (m : ℕ) → p'.state m ≡ marked failed ns p.state m
  error : (m : ℕ) → p'.error m ≡ marked 110 ns p.error m
  others : Others p p'

hand_expired_lem : (ns : List ℕ) (p : Poller) → Handed ns p (hand_expired ns p)
unfolding hand_expired
hand_expired_lem [] p = record {
  results = sym (append-nil p.results);
  state = λ m. refl;
  error = λ m. refl;
  others = (refl, refl, refl, refl, refl, (refl, refl, refl, refl, refl, refl, refl, refl, refl));
}
hand_expired_lem (n ∷ ns) p =
    let h = hand_expired_lem ns (add_result n failed 110 p) in
    record {
      results = h.results ∙ append_assoc p.results (n ∷ []) ns;
      state = λ m. h.state m ∙ marked-∷ failed n ns p.state m;
      error = λ m. h.error m ∙ marked-∷ 110 n ns p.error m;
      others = h.others;
    }

clear_all-append :
    {A : Type 0} (a : A) (fd : ℕ → Option ℕ) (xs ys : List ℕ) (table : ℕ → A)
    → clear_all a fd (xs ++ ys) table ≡ clear_all a fd ys (clear_all a fd xs table)
clear_all-append a fd [] ys table = refl
clear_all-append a fd (x ∷ xs) ys table = clear_all-append a fd xs ys (with_entry a (fd x) table)

clear_all_twice :
    {A : Type 0} (a : A) (fd fd' : ℕ → Option ℕ) (xs ys ys' : List ℕ) (table table' : ℕ → A)
    → fd' ≡ fd
    → ys' ≡ ys
    → table' ≡ clear_all a fd xs table
    → clear_all a fd' ys' table' ≡ clear_all a fd (xs ++ ys) table
clear_all_twice a fd fd' xs ys ys' table table' d e f =
    rw (d, e, f) (sym (clear_all-append a fd xs ys table))

append_ext : (xs xs' ys ys' : List ℕ) → xs ≡ xs' → ys ≡ ys' → xs ++ ys ≡ xs' ++ ys'
append_ext xs xs' ys ys' d e = rw (d, e) refl

-- After __poller_handle_timeout; ETIMEDOUT is 110.
pub record Expires (gone kept_list kept_tree : List ℕ) (p p' : Poller) : Type 0 where
  pub state : (m : ℕ) → p'.state m ≡ (if ltb 0 (count m gone) then failed else p.state m)
  pub error : (m : ℕ) → p'.error m ≡ (if ltb 0 (count m gone) then 110 else p.error m)
  pub results : p'.results ≡ p.results ++ gone
  pub timeo_list : p'.timeo_list ≡ kept_list
  pub timeo_tree : p'.timeo_tree ≡ kept_tree
  pub tree_first : p'.tree_first ≡ head_of kept_tree
  pub nodes : p'.nodes ≡ clear_all empty p.fd gone p.nodes
  pub registered : p'.registered ≡ clear_all none p.fd gone p.registered
  pub same : Same p p'

Same-trans : (p q r : Poller) → Same p q → Same q r → Same p r
Same-trans p q r (a, b, c, d, e, f, g, h, i) (a', b', c', d', e', f', g', h', i') =
    (a' ∙ a, b' ∙ b, c' ∙ c, d' ∙ d, e' ∙ e, f' ∙ f, g' ∙ g, h' ∙ h, i' ∙ i)

-- __poller_handle_timeout hands over the nodes whose deadline is before `now`, those of the list
-- before those of the tree, each with the state PR_ST_ERROR and the error ETIMEDOUT, and takes them
-- out of the table and of epoll; the others stay in their order, with their state and their error,
-- and nothing else changes.
pub handle_timeout-Expires :
    (now : Timespec) (p : Poller)
    → IsOrdered p
    → Expires
        (overdue p.timeout now p.timeo_list ++ overdue p.timeout now p.timeo_tree)
        (in_time p.timeout now p.timeo_list)
        (in_time p.timeout now p.timeo_tree)
        p
        (handle_timeout now p)
unfolding handle_timeout
handle_timeout-Expires now p v =
    let r1 = expire_list now p.timeo_list p in
    let p1 = r1.1 in
    let l = expire_list_lem now p.timeo_list p v.list_sorted refl in
    let (_, fd1, timeout1, _, _, _, _, _, _) = l.same in
    let r2 = expire_tree now (length p1.timeo_tree) p1 in
    let t =
      expire_tree_lem now p.timeo_tree (length p1.timeo_tree) p1
        (omega (arith, ap (λ (w : List ℕ). length w) l.timeo_tree))
        (subst (λ f. IsSorted f p.timeo_tree) (sym timeout1) v.tree_sorted) l.timeo_tree
        (l.tree_first ∙ v.first) in
    let overdue_list = overdue p.timeout now p.timeo_list in
    let overdue_tree = overdue p.timeout now p.timeo_tree in
    let changed : overdue p1.timeout now p.timeo_tree ≡ overdue_tree =
      ap (λ (f : ℕ → Timespec). overdue f now p.timeo_tree) timeout1 in
    let left : in_time p1.timeout now p.timeo_tree ≡ in_time p.timeout now p.timeo_tree =
      ap (λ (f : ℕ → Timespec). in_time f now p.timeo_tree) timeout1 in
    let p3 = hand_expired r1.0 r2.1 in
    let h3 = hand_expired_lem r1.0 r2.1 in
    let (list3, tree3, first3, nodes3, registered3, same3) = h3.others in
    let h4 = hand_expired_lem r2.0 p3 in
    let (list4, tree4, first4, nodes4, registered4, same4) = h4.others in
    record {
      state = λ m.
          h4.state m
          ∙ marked_twice failed r1.0 overdue_list r2.0 overdue_tree r2.1.state p3.state p.state m
              l.moves (t.moves ∙ changed) (t.state ∙ l.state) (h3.state m);
      error = λ m.
          h4.error m
          ∙ marked_twice 110 r1.0 overdue_list r2.0 overdue_tree r2.1.error p3.error p.error m
              l.moves (t.moves ∙ changed) (t.error ∙ l.error) (h3.error m);
      results =
          h4.results
          ∙ append_ext p3.results (p.results ++ overdue_list) r2.0 overdue_tree
              (h3.results
                ∙ append_ext r2.1.results p.results r1.0 overdue_list (t.results ∙ l.results)
                    l.moves)
              (t.moves ∙ changed)
          ∙ append_assoc p.results overdue_list overdue_tree;
      timeo_list = list4 ∙ list3 ∙ t.timeo_list ∙ l.keeps;
      timeo_tree = tree4 ∙ tree3 ∙ t.keeps ∙ left;
      tree_first = first4 ∙ first3 ∙ t.tree_first ∙ ap head_of left;
      nodes =
          nodes4
          ∙ nodes3
          ∙ t.nodes
          ∙ clear_all_twice empty p.fd p1.fd overdue_list overdue_tree
              (overdue p1.timeout now p.timeo_tree) p.nodes p1.nodes fd1 changed l.nodes;
      registered =
          registered4
          ∙ registered3
          ∙ t.registered
          ∙ clear_all_twice none p.fd p1.fd overdue_list overdue_tree
              (overdue p1.timeout now p.timeo_tree) p.registered p1.registered fd1 changed
              l.registered;
      same =
          Same-trans p p3 (handle_timeout now p)
            (Same-trans p r2.1 p3 (Same-trans p p1 r2.1 l.same t.same) same3) same4;
    }
