-- ===== src/Poller/Safe/Thread.antt =====
-- A round of the thread keeps a poller safe.
use mathlib.Core.Path.{subst}
use demo_submodule.Prelude.{
  ◌||◌, ◌+◌, ◌<◌, ◌≡◌, refl, ap, Bool, true, false, Option, none, some, [], ◌∷◌, if◌then◌else◌,
  count, arith, Bool-cases, inl, inr,
}
use demo_submodule.Poller.{Poller, Timespec}
use demo_submodule.Poller.Events.{
  Event, ready, piped, timed, handle_event, is_piped, after_pipe, handle_events, handle_pipe,
  handle_timeout,
}
use demo_submodule.Poller.Kept.{linked_count}
use demo_submodule.Poller.Safe.{IsSafe}
use demo_submodule.Poller.Safe.Events.{
  poller_of, finish_node-IsSafe, handle_timeout-IsSafe, handle_pipe-IsSafe,
}

-- What an event may be: its node waits, or was put into the pipe.
abbrev pub Fits : Event → Poller → Type 0
Fits (ready n (some error)) p = 0 < linked_count n p + count n p.pipe
Fits other p = Unit

handle_event-IsSafe : (e : Event) (p : Poller) → Fits e p → IsSafe p → IsSafe (handle_event e p)
handle_event-IsSafe (ready n (some error)) p h s = finish_node-IsSafe error n p h s
handle_event-IsSafe (ready n none) p h s = s
handle_event-IsSafe piped p h s = s
handle_event-IsSafe timed p h s = s

after_pipe-IsSafe :
    (now : Timespec) (r : Option (Bool × Poller)) (p p' : Poller) (stop : Bool)
    → ((stop' : Bool) (q : Poller) → r ≡ some (stop', q) → IsSafe q)
    → after_pipe (λ q. some (false, handle_timeout now q)) r ≡ some (stop, p')
    → IsSafe p'
after_pipe-IsSafe now none p p' stop h e = absurd (ground (arith, e))
after_pipe-IsSafe now (some (true, q)) p p' stop h e =
    subst (λ w. IsSafe w) (ap (poller_of p) e) (h true q refl)
after_pipe-IsSafe now (some (false, q)) p p' stop h e =
    subst (λ w. IsSafe w) (ap (poller_of p) e) (handle_timeout-IsSafe now q (h false q refl))

-- A round of the thread with one event keeps a poller safe.
pub handle_events-IsSafe :
    (now : Timespec) (e : Event) (p p' : Poller) (stop : Bool)
    → Fits e p
    → IsSafe p
    → handle_events now false (e ∷ []) p ≡ some (stop, p')
    → IsSafe p'
unfolding handle_events
handle_events-IsSafe now e p p' stop h s k =
    let q = handle_event e p in
    let r = (if is_piped e || false then handle_pipe q else some (false, q)) in
    after_pipe-IsSafe now r p p' stop
      (λ stop' w d. elim (Bool-cases (is_piped e || false)) [
        | inl z ↦
            handle_pipe-IsSafe q w stop'
              (subst
                (λ (b : Bool). (if b then handle_pipe q else some (false, q)) ≡ some (stop', w)) z
                d)
              (handle_event-IsSafe e p h s)
        | inr z ↦
            subst (λ w'. IsSafe w')
              (ap (poller_of p) (
                subst
                  (λ (b : Bool). (if b then handle_pipe q else some (false, q)) ≡ some (stop', w)) z
                  d))
              (handle_event-IsSafe e p h s)
      ])
      k
