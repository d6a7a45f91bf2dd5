-- ===== src/Poller/Kept/Arm.antt =====
-- The timer after a node has come to wait.
use demo_submodule.Prelude.{
  ℕ, ◌+◌, ◌<◌, ◌≡◌, ◌⊎◌, refl, sym, ap, ◌∙◌, true, false, Option, none, some, List, [], ◌∷◌, ◌==◌,
  count, arith, Bool-cases, inl, inr,
}
use demo_submodule.Poller.{Poller, Timespec, earlier, head_of, is_node, arm, timer_before}
use demo_submodule.Poller.Order.{
  NotAfter, NotAfter-trans, NotAfter-earlier, IsSorted, head-NotAfter, head-count, none-count,
}
use demo_submodule.Poller.Kept.{timed_count, Reaches}

Reaches-trans : (t : Option Timespec) (a b : Timespec) → Reaches t a → NotAfter a b → Reaches t b
Reaches-trans none a b h k = absurd h
Reaches-trans (some t) a b h k = NotAfter-trans t a b h k

-- The node `n` is the first of `xs`, `ys` is the other sequence, and the timer reaches the others.
timer_before-Reaches :
    (n : ℕ) (p : Poller) (xs ys : List ℕ) (first : Option ℕ)
    → IsSorted p.timeout xs
    → IsSorted p.timeout ys
    → head_of xs ≡ some n
    → first ≡ head_of ys
    → count n ys ≡ 0
    → ((m : ℕ) → 0 < count m xs + count m ys → (m ≡ n) ⊎ Reaches p.timer (p.timeout m))
    → (m : ℕ) → 0 < count m xs + count m ys
    → Reaches (timer_before n first p) (p.timeout m)
timer_before-Reaches n p xs ys none sxs sys here first apart reaches m h =
    head-NotAfter p.timeout m n xs sxs here (omega (arith, h, none-count m ys (sym first)))
timer_before-Reaches n p xs ys (some end) sxs sys here first apart reaches m h =
    elim (Bool-cases (earlier (p.timeout n) (p.timeout end))) [
      | inl e ↦ rw e (elim (Bool-cases (count m xs == 0)) [
        | inl z ↦
            let in_ys : 0 < count m ys = ground (arith, h, z) in
            NotAfter-trans (p.timeout n) (p.timeout end) (p.timeout m)
              (NotAfter-earlier (p.timeout n) (p.timeout end) e)
              (head-NotAfter p.timeout m end ys sys (sym first) in_ys)
        | inr z ↦ head-NotAfter p.timeout m n xs sxs here (ground (arith, z))
      ])
      | inr e ↦ rw e (elim (reaches m h) [
        | inl same ↦
            let there = head-count end ys (sym first) in
            elim (reaches end (omega (arith, there))) [
              | inl wrong ↦ absurd (omega (arith, there, apart, ap (λ (w : ℕ). count w ys) wrong))
              | inr r ↦ rw same (Reaches-trans p.timer (p.timeout end) (p.timeout n) r e)
            ]
        | inr r ↦ r
      ])
    ]

-- The node comes after the first of its sequence.
later-Reaches :
    (n : ℕ) (p : Poller) (xs : List ℕ)
    → IsSorted p.timeout xs
    → is_node n (head_of xs) ≡ false
    → 0 < count n xs
    → ((m : ℕ) → 0 < count m xs → (m ≡ n) ⊎ Reaches p.timer (p.timeout m))
    → Reaches p.timer (p.timeout n)
later-Reaches n p [] s other h reaches = absurd (omega arith)
later-Reaches n p (x ∷ xs) s other h reaches = elim (reaches x (head-count x (x ∷ xs) refl)) [
  | inl same ↦ absurd (ground (arith, same, other))
  | inr r ↦
      Reaches-trans p.timer (p.timeout x) (p.timeout n) r
        (head-NotAfter p.timeout n x (x ∷ xs) s refl h)
]

is_node-some : (n : ℕ) (o : Option ℕ) → is_node n o ≡ true → o ≡ some n
is_node-some n none e = absurd (ground (arith, e))
is_node-some n (some m) e = let same : m ≡ n = ground (arith, e) in ap some same

-- A node that has just come to wait: after its place is compared the timer reaches all.
pub arm-Reaches :
    (n : ℕ) (p : Poller)
    → IsSorted p.timeout p.timeo_list
    → IsSorted p.timeout p.timeo_tree
    → p.tree_first ≡ head_of p.timeo_tree
    → timed_count n p ≡ 1
    → ((m : ℕ) → 0 < timed_count m p → (m ≡ n) ⊎ Reaches p.timer (p.timeout m))
    → (m : ℕ) → 0 < timed_count m p
    → Reaches (arm n p).timer (p.timeout m)
unfolding arm
arm-Reaches n p slist stree first once reaches m h =
    elim (Bool-cases (is_node n (head_of p.timeo_list))) [
      | inl e ↦
          let here = is_node-some n (head_of p.timeo_list) e in
          let listed = head-count n p.timeo_list here in
          rw e (
            timer_before-Reaches n p p.timeo_list p.timeo_tree p.tree_first slist stree here first
              (omega (arith, once, listed)) reaches m h)
      | inr e ↦ rw e (elim (Bool-cases (is_node n p.tree_first)) [
        | inl k ↦
            let here = sym first ∙ is_node-some n p.tree_first k in
            let placed = head-count n p.timeo_tree here in
            rw k (
              timer_before-Reaches n p p.timeo_tree p.timeo_list (head_of p.timeo_list) stree slist
                here refl (omega (arith, once, placed)) (λ l z. reaches l (omega (arith, z))) m
                (omega (arith, h)))
        | inr k ↦ rw k (elim (reaches m h) [
          | inl same ↦ rw same (elim (Bool-cases (count n p.timeo_list == 0)) [
            | inl z ↦
                later-Reaches n p p.timeo_tree stree (rw (sym first) k) (ground (arith, once, z))
                  (λ l w. reaches l (omega (arith, w)))
            | inr z ↦
                later-Reaches n p p.timeo_list slist e (ground (arith, z))
                  (λ l w. reaches l (omega (arith, w)))
          ])
          | inr r ↦ r
        ])
      ])
    ]
