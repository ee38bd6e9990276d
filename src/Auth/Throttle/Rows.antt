-- ===== src/Auth/Throttle/Rows.antt =====
-- The throttle row of one key under `register_failure` and `clear_failures`.
use text.Mathlib.TextPositions.{eq_refl}
use arduino_component_knowle.Prelude.{
  String, Bool, true, false, ◌≡◌, refl, Option, none, some, List, [], ◌∷◌, ◌++◌, any, find,
  update_where, Distinct, arith, str_eq, eq_iff, Bool-cases, Option-cases, inl, inr, ◌∙◌,
}
use arduino_component_knowle.Exec.{ok}
use arduino_component_knowle.Auth.Domain.{Time}
use arduino_component_knowle.Auth.Schema.{AuthThrottle, Db}
use arduino_component_knowle.Auth.Throttle.{
  LockoutPolicy, has_key, insert_throttle, count_failure, register_key, register_key_amid,
}

abbrev pub Rows : Type 0
Rows = List AuthThrottle

-- the row that `INSERT` writes
abbrev pub fresh_row : String → Time → AuthThrottle
fresh_row key now = record {
  key_hash = key;
  failure_count = 0;
  window_started_at = now;
  blocked_until = none;
  updated_at = now;
}

abbrev pub row_or_fresh : String → Time → Option AuthThrottle → AuthThrottle
row_or_fresh key now none = fresh_row key now
row_or_fresh key now (some row) = row

pub key-count_failure :
    (p : LockoutPolicy) (now : Time) (r : AuthThrottle)
    → (count_failure p now r).key_hash ≡ r.key_hash
unfolding count_failure
key-count_failure p now r = ground arith

find-any :
    (key : String) (rows : Rows) → any (has_key key) rows ≡ false → find (has_key key) rows ≡ none
find-any key [] h = refl
find-any key (r ∷ rows) h = ground (arith, find-any key rows)

find-append :
    (key : String) (rows : Rows) (r : AuthThrottle)
    → any (has_key key) rows ≡ false
    → has_key key r ≡ true
    → find (has_key key) (rows ++ r ∷ []) ≡ some r
find-append key [] r h k = ground arith
find-append key (x ∷ rows) r h k = ground (arith, find-append key rows r)

find-append_ne :
    (key : String) (rows : Rows) (r : AuthThrottle)
    → has_key key r ≡ false
    → find (has_key key) (rows ++ r ∷ []) ≡ find (has_key key) rows
find-append_ne key [] r k = ground arith
find-append_ne key (x ∷ rows) r k = ground (arith, find-append_ne key rows r)

any_of_find :
    (key : String) (rows : Rows) → find (has_key key) rows ≡ none → any (has_key key) rows ≡ false
any_of_find key [] h = refl
any_of_find key (r ∷ rows) h = ground (arith, any_of_find key rows)

pub find-insert :
    (key : String) (now : Time) (rows : Rows)
    → find (has_key key) (insert_throttle key now rows)
      ≡ some (row_or_fresh key now (find (has_key key) rows))
unfolding insert_throttle
find-insert key now rows = elim (Bool-cases (any (has_key key) rows)) [
  | inl p ↦ rw p (elim (Option-cases (find (has_key key) rows)) [
    | inl e ↦ absurd (cc (p, any_of_find key rows e))
    | inr (r, e) ↦ rw e refl
  ])
  | inr p ↦ rw (p, find-any key rows p) (find-append key rows (fresh_row key now) p (eq_refl key))
]

find-insert_ne :
    (key other : String) (now : Time) (rows : Rows)
    → str_eq other key ≡ false
    → find (has_key other) (insert_throttle key now rows) ≡ find (has_key other) rows
unfolding insert_throttle
find-insert_ne key other now rows h = elim (Bool-cases (any (has_key key) rows)) [
  | inl p ↦ rw p
  | inr p ↦ rw p (find-append_ne other rows (fresh_row key now) h)
]

abbrev pub row_of : String → Db → Option AuthThrottle
row_of key db = find (has_key key) db.throttles

module _ (p : LockoutPolicy) (now : Time) where
  find-update :
      (key : String) (rows : Rows) (r : AuthThrottle)
      → find (has_key key) rows ≡ some r
      → find (has_key key) (update_where (has_key key) (count_failure p now) rows)
        ≡ some (count_failure p now r)
  find-update key [] r h = cc
  find-update key (x ∷ rows) r h = ground (arith, find-update key rows r, key-count_failure p now x)

  find-update_ne :
      (key other : String) (rows : Rows)
      → str_eq other key ≡ false
      → find (has_key other) (update_where (has_key key) (count_failure p now) rows)
        ≡ find (has_key other) rows
  find-update_ne key other [] h = refl
  find-update_ne key other (x ∷ rows) h = ground (
    arith,
    find-update_ne key other rows h,
    key-count_failure p now x,
    eq_iff key x.key_hash,
    eq_iff other x.key_hash,
    eq_iff other key,
  )

  -- One failure counts on the row of its key, which is written first where there is none.
  pub row_of-register_key :
      (key : String) (db : Db)
      → row_of key (register_key p now key db).1
        ≡ some (count_failure p now (row_or_fresh key now (row_of key db)))
  unfolding register_key register_key_amid
  row_of-register_key key db = rw (find-insert key now db.throttles) (
      find-update key (insert_throttle key now db.throttles) (row_or_fresh key now (row_of key db))
        (find-insert key now db.throttles))

  -- It leaves the rows of other keys alone.
  pub row_of-register_key_ne :
      (key other : String) (db : Db)
      → str_eq other key ≡ false
      → row_of other (register_key p now key db).1 ≡ row_of other db
  unfolding register_key register_key_amid
  row_of-register_key_ne key other db h = rw (find-insert key now db.throttles) (
      find-update_ne key other (insert_throttle key now db.throttles) h
      ∙ find-insert_ne key other now db.throttles h)

  -- The row that was written is found, so the loop never raises.
  pub register_key-ok : (key : String) (db : Db) → (register_key p now key db).0 ≡ ok tt
  unfolding register_key register_key_amid
  register_key-ok key db = rw (find-insert key now db.throttles)

-- `key_hash` is the primary key.
abbrev pub same_key : AuthThrottle → AuthThrottle → Bool
same_key r s = str_eq r.key_hash s.key_hash

abbrev pub KeysDistinct : Db → Type 0
KeysDistinct db = Distinct same_key db.throttles

any-append_key :
    (x r : AuthThrottle) (rows : Rows)
    → any (same_key x) rows ≡ false
    → same_key x r ≡ false
    → any (same_key x) (rows ++ r ∷ []) ≡ false
any-append_key x r [] h k = ground arith
any-append_key x r (y ∷ rows) h k = ground (arith, any-append_key x r rows)

Distinct-append :
    (key : String) (now : Time) (rows : Rows)
    → any (has_key key) rows ≡ false
    → Distinct same_key rows
    → Distinct same_key (rows ++ fresh_row key now ∷ [])
Distinct-append key now [] h d = (refl, tt)
Distinct-append key now (r ∷ rows) h d = ground (
  arith,
  Distinct-append key now rows,
  any-append_key r (fresh_row key now) rows,
  eq_iff key r.key_hash,
  eq_iff r.key_hash key,
)

module _ (p : LockoutPolicy) (now : Time) (key : String) where
  any-update_key :
      (x : AuthThrottle) (rows : Rows)
      → any (same_key x) (update_where (has_key key) (count_failure p now) rows)
        ≡ any (same_key x) rows
  any-update_key x [] = refl
  any-update_key x (r ∷ rows) = ground (arith, any-update_key x rows, key-count_failure p now r)

  Distinct-update :
      (rows : Rows)
      → Distinct same_key rows
      → Distinct same_key (update_where (has_key key) (count_failure p now) rows)
  Distinct-update [] d = tt
  Distinct-update (r ∷ rows) d = ground (
    arith,
    Distinct-update rows,
    any-update_key r rows,
    any-update_key (count_failure p now r) rows,
    key-count_failure p now r,
  )

  Distinct-insert :
      (rows : Rows) → Distinct same_key rows → Distinct same_key (insert_throttle key now rows)
  unfolding insert_throttle
  Distinct-insert rows d = elim (Bool-cases (any (has_key key) rows)) [
    | inl e ↦ rw e d
    | inr e ↦ rw e (Distinct-append key now rows e d)
  ]

  -- One failure keeps the keys distinct.
  pub register_key-KeysDistinct :
      (db : Db) → KeysDistinct db → KeysDistinct (register_key p now key db).1
  unfolding register_key register_key_amid
  register_key-KeysDistinct db d =
      rw (find-insert key now db.throttles)
        (Distinct-update (insert_throttle key now db.throttles) (Distinct-insert db.throttles d))
