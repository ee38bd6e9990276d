-- ===== src/Auth/Throttle/Concurrent.antt =====
-- `register_failure` of src/arduino_component_kb/auth/repository.py while another login clears failures.
use arduino_component_knowle.Prelude.{
  String, Bool, true, false, ◌≡◌, refl, ◌&&◌, if◌then◌else◌, none, List, [], ◌∷◌, any, find,
  delete_where, arith, str_eq, eq_iff, Bool-cases, inl, inr,
}
use arduino_component_knowle.Exec.{ok, err}
use arduino_component_knowle.Auth.Domain.{Time, runtime_error}
use arduino_component_knowle.Auth.Schema.{AuthThrottle, Db}
use arduino_component_knowle.Auth.Throttle.{
  LockoutPolicy, has_key, key_in, insert_throttle, register_key_amid,
}
use arduino_component_knowle.Auth.Throttle.Rows.{Rows, find-insert}

-- `clear_failures`, committed by another transaction. It sees the rows that were committed, not one
-- that this transaction has inserted.
abbrev pub cleared : List String → Rows → Rows → Rows
cleared keys committed rows =
    delete_where (λ row. key_in keys row && any (has_key row.key_hash) committed) rows

find-delete :
    (key : String) (goes : AuthThrottle → Bool) (all_go : Bool)
    → ((row : AuthThrottle) → has_key key row ≡ true → goes row ≡ all_go)
    → (rows : Rows)
    → find (has_key key) (delete_where goes rows)
      ≡ (if all_go then none else find (has_key key) rows)
find-delete key goes true same [] = refl
find-delete key goes false same [] = refl
find-delete key goes true same (row ∷ rows) =
    ground (arith, find-delete key goes true same rows, same row)
find-delete key goes false same (row ∷ rows) =
    ground (arith, find-delete key goes false same rows, same row)

goes_together :
    (key : String) (keys : List String) (committed : Rows) (row : AuthThrottle)
    → has_key key row ≡ true
    → (key_in keys row && any (has_key row.key_hash) committed)
      ≡ (any (λ k. str_eq k key) keys && any (has_key key) committed)
goes_together key keys committed row h =
    let same : key ≡ row.key_hash = ground (arith, eq_iff key row.key_hash) in rw (← same) refl

-- Where another login commits `clear_failures` between the INSERT and the SELECT FOR UPDATE of
-- `register_failure`, the turn of the loop for a key raises RuntimeError exactly when the key is
-- among the cleared ones and had a row before, and else returns.
pub concurrent_clear_raises :
    (policy : LockoutPolicy) (now : Time) (key : String) (keys : List String) (db : Db)
    → (register_key_amid (cleared keys db.throttles) policy now key db).0 ≡ (
        if any (λ k. str_eq k key) keys && any (has_key key) db.throttles
        then err runtime_error
        else ok tt)
unfolding register_key_amid
concurrent_clear_raises policy now key keys db =
    let goes = any (λ k. str_eq k key) keys && any (has_key key) db.throttles in
    let found =
      find-delete key (λ row. key_in keys row && any (has_key row.key_hash) db.throttles) goes
        (goes_together key keys db.throttles) (insert_throttle key now db.throttles) in
    elim (Bool-cases goes) [
      | inl e ↦ rw (found, e) refl
      | inr e ↦ rw (found, e, find-insert key now db.throttles) refl
    ]
