-- ===== src/Auth/Throttle/Blocked.antt =====
-- `is_blocked` of one key reads the throttle row of that key.
use arduino_component_knowle.Auth.Throttle.Rows.{Rows, row_of, same_key, KeysDistinct}
use arduino_component_knowle.Prelude.{
  String, Bool, true, false, ◌≡◌, refl, Option, none, some, [], ◌∷◌, any, find, Distinct, arith,
  str_eq, eq_iff, ◌∙◌, ◌||◌, count_rows, not, ◌&&◌, ◌==◌,
}
use arduino_component_knowle.Auth.Domain.{Time}
use arduino_component_knowle.Auth.Schema.{AuthThrottle, Db}
use arduino_component_knowle.Auth.Throttle.{has_key, blocked_at, is_blocked}

-- With distinct keys the count of blocked rows asks for the one row of the key.
row_blocked : Time → Option AuthThrottle → Bool
row_blocked now none = false
row_blocked now (some r) = blocked_at now r.blocked_until

abbrev blocked_row : String → Time → AuthThrottle → Bool
blocked_row key now row = (str_eq key row.key_hash || false) && blocked_at now row.blocked_until

no_blocked_row :
    (key : String) (now : Time) (rows : Rows)
    → find (has_key key) rows ≡ none
    → count_rows (blocked_row key now) rows ≡ 0
no_blocked_row key now [] h = refl
no_blocked_row key now (r ∷ rows) h = ground (arith, no_blocked_row key now rows)

absent_of_same :
    (key : String) (r : AuthThrottle) (rows : Rows)
    → has_key key r ≡ true
    → any (same_key r) rows ≡ false
    → find (has_key key) rows ≡ none
absent_of_same key r [] h k = refl
absent_of_same key r (x ∷ rows) h k = ground (
  arith,
  absent_of_same key r rows,
  eq_iff key r.key_hash,
  eq_iff key x.key_hash,
  eq_iff r.key_hash x.key_hash,
)

count-blocked_row :
    (key : String) (now : Time) (rows : Rows)
    → Distinct same_key rows
    → not (count_rows (blocked_row key now) rows == 0) ≡ row_blocked now (find (has_key key) rows)
unfolding row_blocked
count-blocked_row key now [] d = refl
count-blocked_row key now (r ∷ rows) d = ground (
  arith,
  count-blocked_row key now rows d.1,
  absent_of_same key r rows,
  no_blocked_row key now rows,
)

-- `is_blocked` of one key reads the row of that key.
pub is_blocked-row_of :
    (key : String) (now : Time) (db : Db)
    → KeysDistinct db
    → is_blocked (key ∷ []) now db
      ≡ elim (row_of key db) [ none ↦ false | some r ↦ blocked_at now r.blocked_until ]
unfolding is_blocked row_blocked
is_blocked-row_of key now db d = count-blocked_row key now db.throttles d ∙ ground arith
