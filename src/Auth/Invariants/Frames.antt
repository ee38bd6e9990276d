-- ===== src/Auth/Invariants/Frames.antt =====
-- What reads and writes other tables keeps every invariant of the accounts.
use arduino_component_knowle.Auth.Throttle.Rows.{register_key-ok}
use arduino_component_knowle.Prelude.{String, ◌≡◌, List, [], ◌∷◌, arith, refl, ◌∙◌}
use arduino_component_knowle.Exec.{modify, ◌>>=◌}
use arduino_component_knowle.Exec.Keeps.{Keeps, keeps_rules, Keeps-modify, Keeps-bind}
use arduino_component_knowle.Auth.Domain.{Time, Uuid, AuthError}
use arduino_component_knowle.Auth.Schema.{Db, AuditEvent}
use arduino_component_knowle.Auth.Audit.{audit, AuditCall, add_audit_event}
use arduino_component_knowle.Auth.Accounts.{
  SessionCall, add_session, revoke_session, revoke_user_sessions,
}
use arduino_component_knowle.Auth.Throttle.{
  LockoutPolicy, register_failure, register_key, register_key_amid, clear_failures,
}
use arduino_component_knowle.Auth.Invariants.{Invariant, At}

tables-register_key :
    (p : LockoutPolicy) (now : Time) (key : String) (s : Db)
    → ((register_key p now key s).1.users ≡ s.users)
      × ((register_key p now key s).1.grants ≡ s.grants)
unfolding register_key register_key_amid
tables-register_key p now key s = ground arith

-- The tables that the invariant reads, after `register_failure`.
pub tables-register_failure :
    (p : LockoutPolicy) (keys : List String) (now : Time) (s : Db)
    → ((register_failure p keys now s).1.users ≡ s.users)
      × ((register_failure p keys now s).1.grants ≡ s.grants)
unfolding register_failure ◌>>=◌
tables-register_failure p [] now s = (refl, refl)
tables-register_failure p (key ∷ keys) now s =
    let next : Db = (register_key p now key s).1 in
    rw (register_key-ok p now key s) (
      (tables-register_failure p keys now next).0 ∙ (tables-register_key p now key s).0,
      (tables-register_failure p keys now next).1 ∙ (tables-register_key p now key s).1,
    )

module _ (P : Invariant) where
  event-frame : (e : AuditEvent) → Keeps {E = AuthError} (At P) (modify (add_audit_event e))
  event-frame e = Keeps-modify (add_audit_event e) (λ s h. h)

  pub audit-frame : (call : AuditCall) → Keeps (At P) (audit call)
  unfolding audit
  audit-frame call = search (keeps_rules, event-frame)

  pub add_session-frame :
      (user_id : Uuid) (call : SessionCall)
      → Keeps {E = AuthError} (At P) (modify (add_session user_id call))
  unfolding add_session
  add_session-frame user_id call = Keeps-modify (add_session user_id call) (λ s h. h)

  pub revoke_session-frame :
      (id : Uuid) (now : Time) → Keeps {E = AuthError} (At P) (modify (revoke_session id now))
  unfolding revoke_session
  revoke_session-frame id now = Keeps-modify (revoke_session id now) (λ s h. h)

  pub revoke_user_sessions-frame :
      (id : Uuid) (now : Time) → Keeps {E = AuthError} (At P) (modify (revoke_user_sessions id now))
  unfolding revoke_user_sessions
  revoke_user_sessions-frame id now = Keeps-modify (revoke_user_sessions id now) (λ s h. h)

  pub clear_failures-frame :
      (keys : List String) → Keeps {E = AuthError} (At P) (modify (clear_failures keys))
  unfolding clear_failures
  clear_failures-frame keys = Keeps-modify (clear_failures keys) (λ s h. h)

  register_key-frame :
      (p : LockoutPolicy) (now : Time) (key : String) → Keeps (At P) (register_key p now key)
  register_key-frame p now key = record {
    at = λ s h. rw ((tables-register_key p now key s).0, (tables-register_key p now key s).1) h;
  }

  pub register_failure-frame :
      (p : LockoutPolicy) (keys : List String) (now : Time)
      → Keeps (At P) (register_failure p keys now)
  unfolding register_failure
  register_failure-frame p [] now = search keeps_rules
  register_failure-frame p (key ∷ keys) now =
      Keeps-bind (register_key p now key) (λ _. register_failure p keys now)
        (register_key-frame p now key) (λ _. register_failure-frame p keys now)
