-- ===== src/Auth/Audit.antt =====
-- `safe_audit_details` and `AuthRepository.audit` of src/arduino_component_kb/auth/repository.py.
use arduino_component_knowle.Prelude.{
  ℕ, String, Bool, true, false, ◌&&◌, ◌||◌, not, Option, none, some, List, [], ◌∷◌, ◌++◌, length,
  any, all, leb, ◌==◌, codes, str_eq, if◌then◌else◌, is_some,
}
use arduino_component_knowle.Exec.{Result, ok, err, Exec, lift, modify, raise_if, ◌>>=◌, ◌>>◌}
use arduino_component_knowle.Auth.Domain.{Time, Uuid, AuthError, value_error}
use arduino_component_knowle.Auth.Schema.{
  Detail, null, flag, number, text, texts, other, Details, AuditEvent, Db,
}

-- `_ALLOWED_AUDIT_DETAIL_KEYS`
abbrev allowed_audit_detail_keys : List String
allowed_audit_detail_keys =
    "bucket" ∷ "code" ∷ "component_revision" ∷ "component_id" ∷ "decision_id" ∷ "editor_expires_at"
    ∷ "key" ∷ "kind" ∷ "objects_deleted" ∷ "previous_status" ∷ "reason" ∷ "reset"
    ∷ "review_revision" ∷ "revision" ∷ "roles" ∷ "status" ∷ "summary" ∷ "survivor_component_id" ∷ []

unfoldable pub is_allowed_key : String → Bool
is_allowed_key key = any (str_eq key) allowed_audit_detail_keys

unfoldable pub is_safe_value : Detail → Bool
is_safe_value null = true
is_safe_value (flag _) = true
is_safe_value (number _) = true
is_safe_value (text value) = leb (length (codes value)) 200
is_safe_value (texts items) =
    leb (length items) 16 && all (λ item. leb (length (codes item)) 80) items
is_safe_value other = false

unfoldable pub check_values : Details → Result AuthError Details
unfolding is_safe_value
check_values [] = ok []
check_values ((key, value) ∷ rest) = elim (is_safe_value value) [
  | true ↦ elim (check_values rest) [ ok safe ↦ ok ((key, value) ∷ safe) | err e ↦ err e ]
  | false ↦ err value_error
]

unfoldable pub safe_audit_details : Option Details → Result AuthError Details
unfolding is_allowed_key check_values
safe_audit_details none = ok []
safe_audit_details (some details) =
    if all (λ entry. is_allowed_key entry.0) details then check_values details else err value_error

-- `[a-z0-9_.]`
is_label_char : ℕ → Bool
is_label_char c = (leb b'a' c && leb c b'z') || (leb b'0' c && leb c b'9') || c == b'_' || c == b'.'

-- `_AUDIT_LABEL_PATTERN.fullmatch`: `[a-z][a-z0-9_.]{0,79}`
is_label_codes : List ℕ → Bool
unfolding is_label_char
is_label_codes [] = false
is_label_codes (c ∷ rest) =
    leb b'a' c && leb c b'z' && leb (length rest) 79 && all is_label_char rest

unfoldable pub is_label : String → Bool
unfolding is_label_codes
is_label label = is_label_codes (codes label)

-- The keyword arguments of `audit`, with the identifier that `uuid4` draws.
pub record AuditCall : Type 0 where
  pub id : Uuid
  pub now : Time
  pub actor_user_id : Option Uuid
  pub action : String
  pub object_type : String
  pub object_id : Option Uuid
  pub request_id : Option String
  pub outcome : String
  pub details : Option Details
  pub actor_type : Option String

-- `actor_type or ("user" if actor_user_id else "anonymous")`
unfoldable pub resolved_actor_type : Option String → Option Uuid → String
resolved_actor_type (some String.[]) actor = if is_some actor then "user" else "anonymous"
resolved_actor_type (some t) actor = t
resolved_actor_type none actor = if is_some actor then "user" else "anonymous"

abbrev pub add_audit_event : AuditEvent → Db → Db
add_audit_event event db = record db { audit_events = db.audit_events ++ event ∷ [] }

unfoldable pub audit : AuditCall → Exec AuthError Db (Unit {0})
unfolding resolved_actor_type is_label
audit call = do
  let actor_type = resolved_actor_type call.actor_type call.actor_user_id
  raise_if
      (not (
        is_label call.action
        && is_label call.object_type
        && is_label actor_type
        && is_label call.outcome))
      value_error
  details ← lift (safe_audit_details call.details)
  modify (
      add_audit_event (record {
        id = call.id;
        occurred_at = call.now;
        actor_user_id = call.actor_user_id;
        actor_type = actor_type;
        action = call.action;
        object_type = call.object_type;
        object_id = call.object_id;
        request_id = call.request_id;
        outcome = call.outcome;
        details = details;
      }))
