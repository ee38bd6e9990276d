-- ===== src/Auth/Invariants/Traces.antt =====
-- Sequences of requests to `AuthService`, and induction over them.
use arduino_component_knowle.Prelude.{String, Bool, Option}
use arduino_component_knowle.Auth.Domain.{Uuid, RoleSet, Principal}
use arduino_component_knowle.Auth.Schema.{Db}
use arduino_component_knowle.Auth.Invariants.{Invariant, At, IsStable, IsUnused}
use arduino_component_knowle.Auth.Invariants.Methods.{
  set_roles-Keeps, grant_editor-Keeps, revoke_editor-Keeps, reset_password-Keeps,
  disable_user-Keeps, create_user-Keeps, create_administrator-Keeps,
}
use arduino_component_knowle.Auth.Invariants.Logins.{login-Keeps, register-Keeps, logout-Keeps}
use arduino_component_knowle.Auth.Platform.{Platform, Settings, Datetime}
use arduino_component_knowle.Auth.Service.Common.{Draw}
use arduino_component_knowle.Auth.Service.Login
use arduino_component_knowle.Auth.Service.Admin

-- The calls that change the database.
pub data Request : Type 0 where
  login : Draw → String → String → String → Bool → Request
  register : Draw → String → String → String → Request
  logout : Draw → Principal → Request
  create_user : Draw → Uuid → String → String → String → RoleSet → Option Datetime → Request
  create_administrator : Draw → Uuid → String → String → Request
  reset_password : Draw → Uuid → Uuid → String → Request
  grant_editor : Draw → Uuid → Uuid → Datetime → Request
  revoke_editor : Draw → Uuid → Uuid → Request
  set_roles : Draw → Uuid → Uuid → RoleSet → Option Datetime → Request
  disable_user : Draw → Uuid → Uuid → Request

module _ (platform : Platform) (settings : Settings) where
  -- The database when the method has returned or raised.
  unfoldable pub perform : Request → Db → Db
  perform (login d name password client remember) s =
      (Login.login platform settings d name password client remember s).1
  perform (register d name password client) s =
      (Login.register platform settings d name password client s).1
  perform (logout d principal) s = (Login.logout d principal s).1
  perform (create_user d actor name display_name password roles expires_at) s =
      (Admin.create_user platform d actor name display_name password roles expires_at s).1
  perform (create_administrator d actor name password) s =
      (Admin.create_administrator platform d actor name password s).1
  perform (reset_password d actor user_id password) s =
      (Admin.reset_password platform d actor user_id password s).1
  perform (grant_editor d actor user_id expires_at) s =
      (Admin.grant_editor platform d actor user_id expires_at s).1
  perform (revoke_editor d actor user_id) s = (Admin.revoke_editor d actor user_id s).1
  perform (set_roles d actor user_id roles expires_at) s =
      (Admin.set_roles platform d actor user_id roles expires_at s).1
  perform (disable_user d actor user_id) s = (Admin.disable_user d actor user_id s).1

  -- `uuid4` draws an unused identifier for a new account.
  abbrev pub DrawsUnused : Request → Db → Type 0
  DrawsUnused (register d _ _ _) s = IsUnused d.user_id s
  DrawsUnused (create_user d _ _ _ _ _ _) s = IsUnused d.user_id s
  DrawsUnused (create_administrator d _ _ _) s = IsUnused d.user_id s
  DrawsUnused _ s = Unit

  -- A request that is rolled back is no step: the database stays.
  pub data Reach (s : Db) : Db → Type 0 where
    here : Reach s s
    commit : {t : Db} (r : Request) → DrawsUnused r t → Reach s t → Reach s (perform r t)

  module _ {P : Invariant} (stable : IsStable P) where
    perform-keeps : (r : Request) (s : Db) → DrawsUnused r s → At P s → At P (perform r s)
    unfolding perform
    perform-keeps (login d name password client remember) s u =
        (login-Keeps stable platform settings d name password client remember).at s
    perform-keeps (register d name password client) s u =
        (register-Keeps stable platform settings d name password client u).at
    perform-keeps (logout d principal) s u = (logout-Keeps stable d principal).at s
    perform-keeps (create_user d actor name display_name password roles expires_at) s u =
        (create_user-Keeps stable platform d actor u name display_name password roles expires_at).at
    perform-keeps (create_administrator d actor name password) s u =
        (create_administrator-Keeps stable platform d actor u name password).at
    perform-keeps (reset_password d actor user_id password) s u =
        (reset_password-Keeps stable platform d actor user_id password).at s
    perform-keeps (grant_editor d actor user_id expires_at) s u =
        (grant_editor-Keeps stable platform d actor user_id expires_at).at s
    perform-keeps (revoke_editor d actor user_id) s u =
        (revoke_editor-Keeps stable d actor user_id).at s
    perform-keeps (set_roles d actor user_id roles expires_at) s u =
        (set_roles-Keeps stable platform d actor user_id roles expires_at).at s
    perform-keeps (disable_user d actor user_id) s u =
        (disable_user-Keeps stable d actor user_id).at s

    -- A stable invariant holds wherever requests lead.
    pub Reach-keeps : {s t : Db} → At P s → Reach s t → At P t
    Reach-keeps h here = h
    Reach-keeps h (commit {t} r u rest) = perform-keeps r t u (Reach-keeps h rest)
