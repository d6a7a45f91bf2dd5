-- ===== src/Scheduler/Request.antt =====
-- What request of a group comes to.
use demo_submodule.Prelude.{
  ℕ, ◌+◌, ◌<◌, ◌≡◌, refl, sym, ap, ◌∙◌, Bool, false, some, List, arith, inl, inr, Bool-cases, ◌==◌,
  ◌&&◌, if◌then◌else◌,
}
use demo_submodule.Scheduler.{Sched, Wake, release, settle, then_settle, request}
use demo_submodule.Scheduler.Load.{NoMore}
use demo_submodule.Scheduler.Operations.{IsSched}
use demo_submodule.Scheduler.Runs.{Takes, acquire-Takes}
use demo_submodule.Scheduler.Target.{Near, release-Releases}

-- From `s` to `s'` a request found the target `t` of the group: the target and the group carry one
-- load more if the request was accepted, and what they carried before if not.
pub record Requests (accepted : Bool) (s s' : Sched) (t : ℕ) : Type 0 where
  pub member : s.group t ≡ s.self
  pub least : (u : ℕ) → s.group u ≡ s.self → NoMore s t u
  pub charged :
      (u : ℕ)
      → s'.target_cur u ≡ (if (u == t) && accepted then s.target_cur u + 1 else s.target_cur u)
  pub group_load : s'.cur_load ≡ (if accepted then s.cur_load + 1 else s.cur_load)
  pub valid : IsSched s'

settle-Requests :
    (accepted : ℕ → Bool) (t : ℕ) (s s' : Sched)
    → IsSched s
    → Takes s s' t
    → (s'' : Sched) × (settle accepted (some t) s' ≡ some (accepted t, some t, s''))
      × Requests (accepted t) s s'' t
unfolding settle
settle-Requests accepted t s s' v k =
    let now : s'.target_cur t ≡ s.target_cur t + 1 = ground (arith, k.charged t) in
    elim (Bool-cases (accepted t)) [
      | inl ok ↦ (
        s',
        rw ok refl,
        record {
          member = k.member;
          least = k.least;
          charged = λ u. ground (arith, k.charged u, ap s.target_cur, ok);
          group_load = rw ok k.group_load;
          valid = k.valid;
        },
      )
      | inr refused ↦
          let near : Near t s' =
            inr (ap (λ (f : ℕ → ℕ). f t) k.groups.0 ∙ k.member ∙ sym k.groups.1) in
          let r = release-Releases t s' k.valid near (omega (arith, now)) in
          let grouped : (s'.group t == 0) ≡ false =
            ground
              (arith, k.valid.address, ap (λ (f : ℕ → ℕ). f t) k.groups.0, k.member, k.groups.1) in
          (
            release t s',
            rw refused refl,
            record {
              member = k.member;
              least = k.least;
              charged =
                  λ u. ground (arith, r.lowered u, now, k.charged u, ap s.target_cur, refused);
              group_load = rw refused (ground (arith, r.group_load, grouped, k.group_load));
              valid = r.valid;
            },
          )
    ]

-- A request of a valid group with room finds, whatever the timeout, a target of the group that is
-- loaded least, and keeps the group valid; if the communicator refuses it, the target is given back
-- and no load has changed.
pub request-Requests :
    (accepted : ℕ → Bool) (waits : Bool) (wakes : List Wake) (s : Sched)
    → IsSched s
    → s.cur_load < s.max_load
    → (t : ℕ) × (s' : Sched) × (request accepted waits wakes s ≡ some (accepted t, some t, s'))
      × Requests (accepted t) s s' t
unfolding request
request-Requests accepted waits wakes s v l =
    let (t, s', e, k) = acquire-Takes waits wakes s v l in
    let (s'', q, r) = settle-Requests accepted t s s' v k in
    (t, s'', ap (then_settle accepted) e ∙ q, r)
