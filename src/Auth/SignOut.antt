-- ===== src/Auth/SignOut.antt =====
-- Changes to an account and its sessions (auth/service.py: `set_roles`, `grant_editor`,
-- `revoke_editor`, `reset_password`, `disable_user`; auth/repository.py: `revoke_user_sessions`).
use arduino_component_knowle.Prelude.{
  All, is_none, update_where, String, ◌≡◌, sym, ap, ◌∙◌, ◌≢◌, inl, inr, false, ◌&&◌, Option, some,
  List, [], ◌∷◌, arith, ◌==◌, Option-cases,
}
use arduino_component_knowle.Exec.{ok, ◌>>=◌, modify, ◌>>◌}
use arduino_component_knowle.Exec.Keeps.{Keeps, keeps_rules, Keeps-modify}
use arduino_component_knowle.Exec.Leaves.{
  Leaves, Leaves-gets, Leaves-lift, Leaves-raise_if, Leaves-modify, Leaves-keep,
}
use arduino_component_knowle.Auth.Domain.{
  Time, Uuid, RoleSet, Principal, UserIdentity, AuthError, last_administrator, role_grant_policy,
}
use arduino_component_knowle.Auth.Schema.{AuthSession, User, AuditEvent, Db}
use arduino_component_knowle.Auth.Audit.{audit, AuditCall, add_audit_event}
use arduino_component_knowle.Auth.Accounts.{
  revoke_user_sessions, resolve_session, find_user, disable_account,
}
use arduino_component_knowle.Auth.Accounts.Resolve.{resolve_session-some}
use arduino_component_knowle.Auth.Grants.{count_active_administrators}
use arduino_component_knowle.Auth.Platform.{Platform, Datetime}
use arduino_component_knowle.Auth.Service.Common.{Draw, Method, existing_user}
use arduino_component_knowle.Auth.Service.Reads.{find_user-some}
use arduino_component_knowle.Auth.Service.Admin

-- The changes that end the sessions of an account.
pub data AccountChange : Type 0 where
  reset_password : String → AccountChange
  grant_editor : Datetime → AccountChange
  revoke_editor : AccountChange
  set_roles : RoleSet → Option Datetime → AccountChange
  disable_user : AccountChange

unfoldable pub change_account : Platform → Draw → Uuid → Uuid → AccountChange → Method (Unit {0})
change_account platform d actor user_id (reset_password password) =
    Admin.reset_password platform d actor user_id password
change_account platform d actor user_id (grant_editor expires_at) =
    Admin.grant_editor platform d actor user_id expires_at
change_account platform d actor user_id revoke_editor = Admin.revoke_editor d actor user_id
change_account platform d actor user_id (set_roles roles expires_at) =
    Admin.set_roles platform d actor user_id roles expires_at
change_account platform d actor user_id disable_user = Admin.disable_user d actor user_id

abbrev EndedAt : Uuid → AuthSession → Type 0
EndedAt id s = s.user_id ≡ id → is_none s.revoked_at ≡ false

abbrev AllEnded : Uuid → Db → Type 0
AllEnded id db = All (EndedAt id) db.sessions

revoke_user_sessions-AllEnded :
    (id : Uuid) (now : Time) (db : Db) → AllEnded id (revoke_user_sessions id now db)
unfolding revoke_user_sessions
revoke_user_sessions-AllEnded id now db = go db.sessions
  where
    go :
        (ss : List AuthSession)
        → All (EndedAt id) (
            update_where
              (λ s. s.user_id == id && is_none s.revoked_at)
              (λ s. record s { revoked_at = some now })
              ss)
    go [] = tt
    go (s ∷ ss) = (λ e. ground arith, go ss)

ended_by_disable : (id : Uuid) (now : Time) (s : Db) → AllEnded id (disable_account id now s)
unfolding disable_account
ended_by_disable id now s = revoke_user_sessions-AllEnded id now s

-- An identifier of the account found is the one that was asked for.
own_id :
    (id : Uuid) (now : Time) (db : Db) (user : UserIdentity)
    → find_user id now db ≡ some user
    → user.id ≡ id
own_id id now db user e =
    let (u, _, own, same) = find_user-some id now db user e in
    sym (ap (λ (i : UserIdentity). i.id) same) ∙ own

module _ (id : Uuid) where
  event-ended : (e : AuditEvent) → Keeps {E = AuthError} (AllEnded id) (modify (add_audit_event e))
  event-ended e = Keeps-modify (add_audit_event e) (λ s h. h)

  audit-ended : (call : AuditCall) → Keeps (AllEnded id) (audit call)
  unfolding audit
  audit-ended call = search (keeps_rules, event-ended)

  module _ {A : Type 0} {s : Db} where
    Leaves-existing_user :
        (d : Draw) (k : UserIdentity → Method A)
        → ((user : UserIdentity) → user.id ≡ id → Leaves (AllEnded id) s (k user))
        → Leaves (AllEnded id) s (existing_user d id >>= k)
    unfolding existing_user ◌>>=◌
    Leaves-existing_user d k h = elim (Option-cases (find_user id d.read_now s)) [
      | inl e ↦ record { on_ok = rw e (λ a p. cc) }
      | inr (user, e) ↦ record { on_ok = rw e (h user (own_id id d.read_now s user e)).on_ok }
    ]

  -- the last steps of each change
  revoke_then_audit :
      (now : Time) (s : Db) (call : AuditCall)
      → Leaves (AllEnded id) s (modify (revoke_user_sessions id now) >> audit call)
  revoke_then_audit now s call =
      Leaves-modify _ _ (Leaves-keep _ (revoke_user_sessions-AllEnded id now s) (audit-ended call))

  change-AllEnded :
      (platform : Platform) (d : Draw) (actor : Uuid) (change : AccountChange) (s : Db)
      → Leaves (AllEnded id) s (change_account platform d actor id change)
  unfolding change_account Admin.reset_password Admin.grant_editor Admin.revoke_editor
      Admin.set_roles Admin.disable_user
  change-AllEnded platform d actor (reset_password password) s =
      Leaves-existing_user d _ λ user own.
        Leaves-lift _ _ λ hash valid. Leaves-modify _ _ (rw own (revoke_then_audit d.now _ _))
  change-AllEnded platform d actor (grant_editor expires_at) s =
      Leaves-existing_user d _ λ user own.
        Leaves-raise_if _ role_grant_policy _
          λ guard. Leaves-lift _ _ λ _ valid. Leaves-modify _ _ (revoke_then_audit d.now _ _)
  change-AllEnded platform d actor revoke_editor s = Leaves-existing_user d _ λ user own.
      Leaves-raise_if _ role_grant_policy _ λ guard. Leaves-modify _ _ (revoke_then_audit d.now _ _)
  change-AllEnded platform d actor (set_roles roles expires_at) s =
      Leaves-existing_user d _ λ user own. Leaves-gets count_active_administrators _ (
        Leaves-raise_if _ last_administrator _
          λ guard. Leaves-lift _ _ λ _ valid. Leaves-modify _ _ (revoke_then_audit d.now _ _))
  change-AllEnded platform d actor disable_user s = Leaves-existing_user d _ λ user own.
      Leaves-gets count_active_administrators _ (
        Leaves-raise_if _ last_administrator _
          λ guard. Leaves-modify _ _ (Leaves-keep _ (ended_by_disable id d.now s) (audit-ended _)))

-- When a password reset, a grant or revocation of the editor role, a change of roles or a
-- deactivation has returned, no token resolves to a session of that account, at any time.
pub change_signs_out :
    (platform : Platform) (d : Draw) (actor user_id : Uuid) (change : AccountChange) (s : Db)
    → (change_account platform d actor user_id change s).0 ≡ ok tt
    → (token : String) (now : Time) (p : Principal)
    → resolve_session token now (change_account platform d actor user_id change s).1 ≡ some p
    → p.user_id ≢ user_id
change_signs_out platform d actor user_id change s done token now p e same =
    let t : Db = (change_account platform d actor user_id change s).1 in
    let (x, _, _, ended, r) =
      resolve_session-some (λ _. Unit {0}) (EndedAt user_id) token now t p (all_tt t.users)
        ((change-AllEnded user_id platform d actor change s).on_ok tt done) e in
    ground (arith, ended (sym r.owner ∙ sym r.user_id_eq ∙ same), r.open_session)
  where
    all_tt : (xs : List User) → All (λ _. Unit {0}) xs
    all_tt [] = tt
    all_tt (x ∷ xs) = (tt, all_tt xs)
