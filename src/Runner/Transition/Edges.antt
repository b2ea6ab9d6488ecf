-- ===== src/Runner/Transition/Edges.antt =====
-- The transition diagram of runner/state.py as a relation that does not mention the tables and
-- flags of the code, and the guard of `transition` against it.
use schema_guard.Base.{
  ℕ, String, ◌≡◌, refl, ◌↔◌, inl, inr, Bool, true, Option, none, some, arith, ok, err,
  invalid_transition, eq_iff, eq_refl, Bool-cases,
}
use schema_guard.Runner.Record.{
  TaskStatus, pending, running, complete, failed, blocked, cancelled, TaskStateRecord,
}
use schema_guard.Runner.Transition.{
  Request, is_authorized, reason_is, invalid_cache_artifact, abandoned_lease_recovery,
  transition_record, next_record,
}

-- The edges, with the reason and the retry flag that a way back to `pending` needs.
pub data Permitted (why : Option String) (flag : Bool) : TaskStatus → TaskStatus → Type 0 where
  start : Permitted why flag pending running
  withdraw : Permitted why flag pending cancelled
  finish : Permitted why flag running complete
  fail : Permitted why flag running failed
  block : Permitted why flag running blocked
  cancel : Permitted why flag running cancelled
  recover : why ≡ some abandoned_lease_recovery → Permitted why flag running pending
  retry : flag ≡ true → Permitted why flag failed pending
  recompute : why ≡ some invalid_cache_artifact → Permitted why flag complete pending

reason_is-eq :
    (expected : String) (why : Option String) → reason_is expected why ≡ true → why ≡ some expected
unfolding reason_is
reason_is-eq expected none h = cc
reason_is-eq expected (some s) h = ground (arith, eq_iff s expected)

reason_is_self : (expected : String) → reason_is expected (some expected) ≡ true
unfolding reason_is
reason_is_self expected = eq_refl expected

authorized-Permitted :
    (s t : TaskStatus) (a : Request)
    → t ≡ a.to_state
    → is_authorized s a ≡ true
    → Permitted a.reason a.retry_failed s t
unfolding is_authorized
authorized-Permitted pending running a e h = start
authorized-Permitted pending cancelled a e h = withdraw
authorized-Permitted running complete a e h = finish
authorized-Permitted running failed a e h = fail
authorized-Permitted running blocked a e h = block
authorized-Permitted running cancelled a e h = cancel
authorized-Permitted running pending a e h =
    recover (ground (arith, reason_is-eq abandoned_lease_recovery a.reason))
authorized-Permitted failed pending a e h = retry (ground arith)
authorized-Permitted complete pending a e h =
    recompute (ground (arith, reason_is-eq invalid_cache_artifact a.reason))
authorized-Permitted s t a e h = absurd (ground arith)

Permitted-authorized :
    {s t : TaskStatus} (a : Request)
    → t ≡ a.to_state
    → Permitted a.reason a.retry_failed s t
    → is_authorized s a ≡ true
unfolding is_authorized
Permitted-authorized a e start = ground arith
Permitted-authorized a e (recover why) = ground (arith, reason_is_self abandoned_lease_recovery)
Permitted-authorized a e (recompute why) = ground (arith, reason_is_self invalid_cache_artifact)
Permitted-authorized a e (retry flag) = ground arith
Permitted-authorized a e p = ground arith

-- A larger flag permits no less.
pub Permitted-flag :
    {why : Option String} {flag : Bool} {s t : TaskStatus}
    → Permitted why flag s t
    → Permitted why true s t
Permitted-flag (recover why) = recover why
Permitted-flag (retry flag) = retry refl
Permitted-flag (recompute why) = recompute why
Permitted-flag start = start
Permitted-flag withdraw = withdraw
Permitted-flag finish = finish
Permitted-flag fail = fail
Permitted-flag block = block
Permitted-flag cancel = cancel

-- The guard passes exactly on the edges of the diagram.
pub is_authorized_iff :
    (s : TaskStatus) (a : Request)
    → (is_authorized s a ≡ true) ↔ Permitted a.reason a.retry_failed s a.to_state
is_authorized_iff s a = (authorized-Permitted s a.to_state a refl, Permitted-authorized a refl)

module _ (now pid : ℕ) (r : TaskStateRecord) (a : Request) where
  -- A request on an edge of the diagram yields the next record; any other raises.
  pub transition_record-Permitted :
      (Permitted a.reason a.retry_failed r.state a.to_state
        → transition_record now pid r a ≡ ok (next_record now pid r a))
      × (¬ Permitted a.reason a.retry_failed r.state a.to_state
          → transition_record now pid r a ≡ err invalid_transition)
  unfolding transition_record
  transition_record-Permitted = (
    λ p. rw ((is_authorized_iff r.state a).1 p),
    λ n. elim (Bool-cases (is_authorized r.state a)) [
      | inl yes' ↦ absurd (n ((is_authorized_iff r.state a).0 yes'))
      | inr no' ↦ rw no'
    ],
  )

  -- What `transition` stores came over an edge.
  pub Permitted-of_ok :
      {r' : TaskStateRecord}
      → transition_record now pid r a ≡ ok r'
      → Permitted a.reason true r.state a.to_state × (r' ≡ next_record now pid r a)
  unfolding transition_record
  Permitted-of_ok h = elim (Bool-cases (is_authorized r.state a)) [
    | inl yes' ↦ (Permitted-flag ((is_authorized_iff r.state a).0 yes'), ground arith)
    | inr no' ↦ absurd (ground arith)
  ]
