-- ===== src/Auth/Identity/Disabled.antt =====
-- What requests to src/arduino_component_kb/auth/service.py do to a disabled account.
use arduino_component_knowle.Prelude.{
  any, update_where, All, String, ◌≡◌, refl, sym, ap, ◌∙◌, ◌≢◌, inl, inr, true, false, Option, none,
  some, List, [], ◌∷◌, ◌++◌, arith, ◌==◌, Bool-cases,
}
use arduino_component_knowle.Auth.Domain.{Time, Uuid, UserStatus, is_active, Principal}
use arduino_component_knowle.Auth.Schema.{User, Db, AuthSession}
use arduino_component_knowle.Auth.Accounts.Resolve.{resolve_session-some}
use arduino_component_knowle.Auth.Accounts.{
  has_id, login_marks, mark_login, set_password, disable_account, add_account, account_row,
  resolve_session,
}
use arduino_component_knowle.Auth.Grants.{set_roles, grant_editor, revoke_editor}
use arduino_component_knowle.Auth.Grants.Current.{All-append}
use arduino_component_knowle.Auth.Invariants.{IsStable}
use arduino_component_knowle.Auth.Invariants.Traces.{Reach, Reach-keeps}
use arduino_component_knowle.Auth.Platform.{Platform, Settings}

abbrev OffAt : Uuid → User → Type 0
OffAt id u = u.id ≡ id → is_active u.status ≡ false

-- The account is there, and it is disabled.
pub record DisabledIn (id : Uuid) (users : List User) : Type 0 where
  pub present : any (has_id id) users ≡ true
  pub off : All (OffAt id) users

module _ (id user_id : Uuid) (f : User → User) (same : (u : User) → (f u).id ≡ u.id)
    (calm : (u : User) → is_active u.status ≡ false → is_active (f u).status ≡ false) where
  any-changed :
      (users : List User)
      → any (has_id id) (update_where (has_id user_id) f users) ≡ any (has_id id) users
  any-changed [] = refl
  any-changed (u ∷ users) = ground (arith, any-changed users, same u)

  off-changed :
      (users : List User)
      → All (OffAt id) users
      → All (OffAt id) (update_where (has_id user_id) f users)
  off-changed [] h = tt
  off-changed (u ∷ users) h = elim (Bool-cases (u.id == user_id)) [
    | inl e ↦ rw e (λ p. calm u (h.0 (sym (same u) ∙ p)), off-changed users h.1)
    | inr e ↦ rw e (h.0, off-changed users h.1)
  ]

  changed-DisabledIn :
      (users : List User)
      → DisabledIn id users
      → DisabledIn id (update_where (has_id user_id) f users)
  changed-DisabledIn users h = record {
    present = any-changed users ∙ h.present;
    off = off-changed users h.off;
  }

module _ (id : Uuid) where
  any-append :
      (users : List User) (u : User)
      → any (has_id id) users ≡ true
      → any (has_id id) (users ++ u ∷ []) ≡ true
  any-append [] u h = cc
  any-append (v ∷ users) u h = ground (arith, any-append users u)

  fresh_ne :
      (users : List User) (v : Uuid)
      → any (has_id id) users ≡ true
      → any (has_id v) users ≡ false
      → v ≢ id
  fresh_ne users v h k e = cc (h, k, ap (λ x. any (has_id x) users) e)

  DisabledIn-IsStable : IsStable (λ users grants. DisabledIn id users)
  unfolding mark_login set_password disable_account set_roles grant_editor revoke_editor add_account
  DisabledIn-IsStable = record {
    on_mark_login = λ user_id now hash s.
        changed-DisabledIn id user_id (login_marks now hash) (id-marks now hash)
          (status-marks now hash) s.users;
    on_set_password = λ user_id hash now s.
        changed-DisabledIn id user_id (λ u. record u { password_hash = hash; updated_at = now })
          (λ u. refl) (λ u h. h) s.users;
    on_disable_account = λ user_id read_now now s user found guard.
        changed-DisabledIn id user_id
          (λ u. record u { status = UserStatus.disabled; updated_at = now }) (λ u. refl)
          (λ u h. refl) s.users;
    on_set_roles = λ draw user_id actor read_now now s user roles expires_at found guard h. h;
    on_grant_editor = λ draw user_id actor now expires_at s h. h;
    on_revoke_editor = λ user_id now s h. h;
    on_add_account = λ call read_now s fresh absent h. record {
      present = any-append s.users (account_row call) h.present;
      off =
          All-append (OffAt id) s.users (account_row call ∷ []) h.off
            ((λ e. absurd (fresh_ne s.users call.id h.present fresh.no_user e)), tt);
    };
  }
    where
      id-marks : (now : Time) (hash : Option String) (u : User) → (login_marks now hash u).id ≡ u.id
      id-marks now none u = refl
      id-marks now (some h) u = refl

      status-marks :
          (now : Time) (hash : Option String) (u : User)
          → is_active u.status ≡ false
          → is_active (login_marks now hash u).status ≡ false
      status-marks now none u h = h
      status-marks now (some x) u h = h

-- Once an account is disabled, no session of it resolves after any committed requests, at any time
-- and for any token: neither old sessions nor new ones.
pub disabled_stays_out :
    (platform : Platform) (settings : Settings) (id : Uuid) {s t : Db}
    → DisabledIn id s.users
    → Reach platform settings s t
    → (token : String) (now : Time) (p : Principal) → resolve_session token now t ≡ some p
    → p.user_id ≢ id
disabled_stays_out platform settings id {s} {t} h r token now p e same =
    let k = Reach-keeps platform settings (DisabledIn-IsStable id) h r in
    let (_, u, off, _, v) =
      resolve_session-some (OffAt id) (λ _. Unit {0}) token now t p k.off (all_tt t.sessions) e in
    cc (off (sym v.user_id_eq ∙ same), v.owner_active)
  where
    all_tt : (xs : List AuthSession) → All (λ _. Unit {0}) xs
    all_tt [] = tt
    all_tt (x ∷ xs) = (tt, all_tt xs)
