-- ===== src/Auth/Grants/Current.antt =====
-- The current grants of one user and role under the writes of the repository, and the unique index
-- `uq_user_roles_current_grant` and the check `ck_user_roles_editor_expiry` of auth/models.py.
use arduino_component_knowle.Prelude.{
  ℕ, count_rows, update_where, All, ◌+◌, ◌≤◌, ◌≡◌, refl, ◌≢◌, inl, inr, Bool, true, false, Option,
  none, List, [], ◌∷◌, ◌++◌, arith, ltb, if◌then◌else◌, Bool-cases,
}
use arduino_component_knowle.Auth.Domain.{
  Time, Uuid, Role, student, teacher, editor, administrator, same_role, RoleSet, has_role, members,
}
use arduino_component_knowle.Auth.Schema.{UserRole}
use arduino_component_knowle.Auth.Grants.{
  roles_of, is_current, is_current_role, revoke_grant, new_grants,
}

abbrev pub Grants : Type 0
Grants = List UserRole

-- how many current grants a user has of a role
abbrev pub current_count : Uuid → Role → Grants → ℕ
current_count user_id role grants = count_rows (is_current_role user_id role) grants

-- One current grant at most for each user and role.
abbrev pub OneGrant : Grants → Type 0
OneGrant grants = (u : Uuid) (r : Role) → current_count u r grants ≤ 1

-- Only the editor role expires.
abbrev pub ExpiryFits : UserRole → Type 0
ExpiryFits g = same_role g.role editor ≡ false → g.expires_at ≡ none

pub current_count-append :
    (u : Uuid) (r : Role) (xs ys : Grants)
    → current_count u r (xs ++ ys) ≡ current_count u r xs + current_count u r ys
current_count-append u r [] ys = omega arith
current_count-append u r (x ∷ xs) ys = ground (arith, current_count-append u r xs ys)

pub same_role-eq : (r s : Role) → same_role r s ≡ true → r ≡ s
same_role-eq student s h = ground arith
same_role-eq _ s h = ground arith

module _ (user_id : Uuid) (now : Time) where
  pub current_count-revoke_all_self :
      (r : Role) (grants : Grants)
      → current_count user_id r (update_where (is_current user_id) (revoke_grant now) grants) ≡ 0
  current_count-revoke_all_self r [] = refl
  current_count-revoke_all_self r (g ∷ grants) =
      ground (arith, current_count-revoke_all_self r grants)

  pub current_count-revoke_all_ne :
      (u : Uuid) (r : Role) (grants : Grants)
      → u ≢ user_id
      → current_count u r (update_where (is_current user_id) (revoke_grant now) grants)
        ≡ current_count u r grants
  current_count-revoke_all_ne u r [] h = refl
  current_count-revoke_all_ne u r (g ∷ grants) h =
      ground (arith, current_count-revoke_all_ne u r grants)

  pub current_count-revoke_editor_self :
      (grants : Grants)
      → current_count user_id editor
          (update_where (is_current_role user_id editor) (revoke_grant now) grants)
        ≡ 0
  current_count-revoke_editor_self [] = refl
  current_count-revoke_editor_self (g ∷ grants) =
      ground (arith, current_count-revoke_editor_self grants)

  pub current_count-revoke_editor_le :
      (u : Uuid) (r : Role) (grants : Grants)
      → current_count u r (update_where (is_current_role user_id editor) (revoke_grant now) grants)
        ≤ current_count u r grants
  current_count-revoke_editor_le u r [] = omega arith
  current_count-revoke_editor_le u r (g ∷ grants) =
      ground (arith, current_count-revoke_editor_le u r grants)

  pub administrator-revoke_editor :
      (u : Uuid) (grants : Grants)
      → current_count u administrator
          (update_where (is_current_role user_id editor) (revoke_grant now) grants)
        ≡ current_count u administrator grants
  administrator-revoke_editor u [] = refl
  administrator-revoke_editor u (g ∷ grants) = ground (arith, administrator-revoke_editor u grants)

module _ (draw : Role → Uuid) (user_id : Uuid) (actor : Option Uuid) (now : Time)
    (expires_at : Option Time) where
  pub new_grants_self :
      (r : Role) (roles : RoleSet)
      → current_count user_id r (new_grants draw user_id actor now expires_at (members roles))
        ≡ (if has_role r roles then 1 else 0)
  unfolding new_grants
  new_grants_self student roles = ground arith
  new_grants_self _ roles = ground arith

  pub new_grants_ne :
      (u : Uuid) (r : Role) (roles : List Role)
      → u ≢ user_id
      → current_count u r (new_grants draw user_id actor now expires_at roles) ≡ 0
  unfolding new_grants
  new_grants_ne u r [] h = refl
  new_grants_ne u r (x ∷ roles) h = ground (arith, new_grants_ne u r roles)

  pub new_grants-ExpiryFits :
      (roles : List Role) → All ExpiryFits (new_grants draw user_id actor now expires_at roles)
  unfolding new_grants
  new_grants-ExpiryFits [] = tt
  new_grants-ExpiryFits (student ∷ roles) = (λ h. refl, new_grants-ExpiryFits roles)
  new_grants-ExpiryFits (teacher ∷ roles) = (λ h. refl, new_grants-ExpiryFits roles)
  new_grants-ExpiryFits (editor ∷ roles) = (λ h. cc, new_grants-ExpiryFits roles)
  new_grants-ExpiryFits (administrator ∷ roles) = (λ h. refl, new_grants-ExpiryFits roles)

pub All-append {ℓ κ} :
    {A : Type ℓ} (P : A → Type κ) (front back : List A)
    → All P front
    → All P back
    → All P (front ++ back)
All-append P [] back first second = second
All-append P (row ∷ front) back first second = (first.0, All-append P front back first.1 second)

pub revoke-ExpiryFits :
    (p : UserRole → Bool) (now : Time) (grants : Grants)
    → All ExpiryFits grants
    → All ExpiryFits (update_where p (revoke_grant now) grants)
revoke-ExpiryFits p now [] h = tt
revoke-ExpiryFits p now (g ∷ grants) h = elim (Bool-cases (p g)) [
  | inl e ↦ rw e (h.0, revoke-ExpiryFits p now grants h.1)
  | inr e ↦ rw e (h.0, revoke-ExpiryFits p now grants h.1)
]

-- Where only editor grants expire, the administrator role is live exactly while it is granted.
pub roles_of-administrator :
    (u : Uuid) (now : Time) (grants : Grants)
    → All ExpiryFits grants
    → (roles_of u now grants).administrator ≡ ltb 0 (current_count u administrator grants)
unfolding roles_of
roles_of-administrator u now [] h = refl
roles_of-administrator u now (g ∷ grants) h =
    ground (arith, roles_of-administrator u now grants h.1)
