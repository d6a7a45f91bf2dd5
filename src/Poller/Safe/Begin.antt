-- ===== src/Poller/Safe/Begin.antt =====
-- poller_create and poller_start make and keep a poller safe.
use demo_submodule.Prelude.{
  ℕ, ◌≡◌, ◌≢◌, refl, sym, ap, ◌∙◌, Bool, true, false, Option, none, ◌==◌, update, arith, Bool-cases,
  inl, inr,
}
use demo_submodule.Poller.{Poller, Slot, holds, reserved, empty}
use demo_submodule.Poller.Life.{poller_create, poller_start}
use demo_submodule.Poller.Kept.{linked_count}
use demo_submodule.Poller.Kept.Table.{
  IsTable, update_here, update_other, reserved-holds, empty-holds,
}
use demo_submodule.Poller.Safe.{IsSafe}

reserve-IsTable :
    (linked : ℕ → ℕ) (fd : ℕ → Option ℕ) (nodes : ℕ → Slot) (g : ℕ)
    → ((n : ℕ) → nodes g ≢ holds n)
    → IsTable linked fd nodes
    → IsTable linked fd (update nodes g reserved)
reserve-IsTable linked fd nodes g free t = record {
  held = λ f n e. elim (Bool-cases (f == g)) [
    | inl k ↦ absurd (reserved-holds n (sym (update_here nodes g f reserved k) ∙ e))
    | inr k ↦ t.held f n (sym (update_other nodes g f reserved k) ∙ e)
  ];
  tabled = λ n f l e. elim (Bool-cases (f == g)) [
    | inl k ↦
        let same : f ≡ g = ground (arith, k) in
        absurd (free n (ap nodes (sym same) ∙ t.tabled n f l e))
    | inr k ↦ update_other nodes g f reserved k ∙ t.tabled n f l e
  ];
}

pub poller_start-IsSafe :
    (p : Poller) (is_open runs : Bool) (pipe_rd pipe_wr : ℕ)
    → ((n : ℕ) → p.nodes pipe_rd ≢ holds n)
    → ((n : ℕ) → p.nodes pipe_wr ≢ holds n)
    → IsSafe p
    → IsSafe (poller_start is_open runs pipe_rd pipe_wr p).1
unfolding poller_start
poller_start-IsSafe p false runs rd wr free free' s = s
poller_start-IsSafe p true false rd wr free free' s = s
poller_start-IsSafe p true true rd wr free free' s =
    let v = s.ordered in
    record {
      ordered = record {
        list_sorted = v.list_sorted;
        tree_sorted = v.tree_sorted;
        first = v.first;
        once = v.once;
        in_tree = v.in_tree;
        in_list = v.in_list;
        live = v.live;
        gone = v.gone;
        armed = v.armed;
      };
      tabled =
          reserve-IsTable (λ n. linked_count n p) p.fd (update p.nodes rd reserved) wr
            (λ n. elim (Bool-cases (wr == rd)) [
              | inl k ↦ λ e. reserved-holds n (sym (update_here p.nodes rd wr reserved k) ∙ e)
              | inr k ↦ λ e. free' n (sym (update_other p.nodes rd wr reserved k) ∙ e)
            ])
            (reserve-IsTable (λ n. linked_count n p) p.fd p.nodes rd free s.tabled);
    }

pub created-IsSafe :
    (max_open_files timerfd pfd : ℕ) → IsSafe (poller_create max_open_files timerfd pfd)
unfolding poller_create
created-IsSafe max_open_files timerfd pfd = record {
  ordered = record {
    list_sorted = tt;
    tree_sorted = tt;
    first = refl;
    once = λ m. ground arith;
    in_tree = λ m h. absurd (omega (arith, h));
    in_list = λ m h. absurd (omega (arith, h));
    live = λ m h. refl;
    gone = λ m h. absurd (omega (arith, h));
    armed = λ m h. absurd (omega (arith, h));
  };
  tabled =
      reserve-IsTable (λ _. 0) (λ _. none) (update (λ _. empty) timerfd reserved) pfd
        (λ n. elim (Bool-cases (pfd == timerfd)) [
          | inl k ↦
              λ e. reserved-holds n (sym (update_here (λ _. empty) timerfd pfd reserved k) ∙ e)
          | inr k ↦ λ e. empty-holds n (sym (update_other (λ _. empty) timerfd pfd reserved k) ∙ e)
        ])
        (reserve-IsTable (λ _. 0) (λ _. none) (λ _. empty) timerfd (λ n e. empty-holds n e)
          (record {
            held = λ f n e. absurd (empty-holds n e);
            tabled = λ n f l e. absurd (omega (arith, l));
          }));
}
