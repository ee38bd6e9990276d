-- ===== src/Auth/Accounts/Resolve.antt =====
-- What `resolve_session` (auth/repository.py) has checked of the principal that it returns.
use mathlib.Core.Path.{subst}
use arduino_component_knowle.Prelude.{
  some-eq, find, All, String, ◌≡◌, inl, inr, true, some, List, [], ◌∷◌, arith, Bool-cases,
  Option-cases,
}
use arduino_component_knowle.Auth.Domain.{Time, Uuid, Principal, is_active, any_role}
use arduino_component_knowle.Auth.Schema.{User, AuthSession, Db}
use arduino_component_knowle.Auth.Grants.{roles_of}
use arduino_component_knowle.Auth.Accounts.{
  is_open, owns, resolve_row, resolve_session, with_live_roles,
}

-- The principal is that of an open session with the token, of its active user, with the user's live
-- roles, of which there is one.
pub record Resolves (token_hash : String) (now : Time) (db : Db) (p : Principal) (s : AuthSession)
    (u : User) : Type 0 where
  pub open_session : is_open token_hash now s ≡ true
  pub owner : u.id ≡ s.user_id
  pub owner_active : is_active u.status ≡ true
  pub user_id_eq : p.user_id ≡ u.id
  pub roles_eq : p.roles ≡ roles_of u.id now db.grants
  pub some_role : any_role p.roles ≡ true

find-owns :
    (P : User → Type 0) (id : Uuid) (users : List User) (u : User)
    → All P users
    → find (owns id) users ≡ some u
    → P u × (u.id ≡ id) × (is_active u.status ≡ true)
find-owns P id [] u h e = cc
find-owns P id (v ∷ users) u h e = elim (Bool-cases (owns id v)) [
  | inl o ↦
      let same : v ≡ u = some-eq (rw o at e) in
      subst (λ w. P w × (w.id ≡ id) × (is_active w.status ≡ true)) same
        (h.0, ground arith, ground arith)
  | inr o ↦ find-owns P id users u h.1 (rw o at e)
]

resolve_row-some :
    (P : User → Type 0) (Q : AuthSession → Type 0) (token_hash : String) (now : Time)
    (users : List User) (ss : List AuthSession) (s : AuthSession) (u : User)
    → All P users
    → All Q ss
    → resolve_row token_hash now users ss ≡ some (s, u)
    → P u
      × Q s
      × (is_open token_hash now s ≡ true)
      × (u.id ≡ s.user_id)
      × (is_active u.status ≡ true)
unfolding resolve_row
resolve_row-some P Q token_hash now users [] s u hp hq e = cc
resolve_row-some P Q token_hash now users (x ∷ ss) s u hp hq e =
    elim (Bool-cases (is_open token_hash now x)) [
      | inr o ↦ resolve_row-some P Q token_hash now users ss s u hp hq.1 (rw o at e)
      | inl o ↦ elim (Option-cases (find (owns x.user_id) users)) [
        | inl n ↦ resolve_row-some P Q token_hash now users ss s u hp hq.1 (rw (o, n) at e)
        | inr (v, f) ↦
            let same : ◌≡◌ {A = AuthSession × User} (x, v) (s, u) = some-eq (rw (o, f) at e) in
            let k = find-owns P x.user_id users v hp f in
            subst
              (λ (w : AuthSession × User).
                P w.1
                × Q w.0
                × (is_open token_hash now w.0 ≡ true)
                × (w.1.id ≡ w.0.user_id)
                × (is_active w.1.status ≡ true))
              same (k.0, hq.0, o, k.1, k.2)
      ]
    ]

resolved-some :
    (token_hash : String) (now : Time) (db : Db) (s : AuthSession) (u : User) (p : Principal)
    → with_live_roles now db (some (s, u)) ≡ some p
    → (p.user_id ≡ u.id) × (p.roles ≡ roles_of u.id now db.grants) × (any_role p.roles ≡ true)
resolved-some token_hash now db s u p e = ground arith

-- What holds of all users and of all sessions holds of those behind a principal.
pub resolve_session-some :
    (P : User → Type 0) (Q : AuthSession → Type 0) (token_hash : String) (now : Time) (db : Db)
    (p : Principal)
    → All P db.users
    → All Q db.sessions
    → resolve_session token_hash now db ≡ some p
    → (s : AuthSession) × (u : User) × P u × Q s × Resolves token_hash now db p s u
unfolding resolve_session
resolve_session-some P Q token_hash now db p hp hq e =
    elim (Option-cases (resolve_row token_hash now db.users db.sessions)) [
      | inl n ↦ absurd (cc (rw n at e))
      | inr ((s, u), f) ↦
          let k = resolve_row-some P Q token_hash now db.users db.sessions s u hp hq f in
          let r = resolved-some token_hash now db s u p (rw f at e) in
          (
            s,
            u,
            k.0,
            k.1,
            record {
              open_session = k.2;
              owner = k.3;
              owner_active = k.4;
              user_id_eq = r.0;
              roles_eq = r.1;
              some_role = r.2;
            },
          )
    ]
