-- ===== src/Auth/Throttle/Lockout.antt =====
-- The brute-force lockout over a run of failures.
use native.Mathlib.Nat.{add-zero}
use arduino_component_knowle.Prelude.{
  ℕ, length, All, any, suc, ◌+◌, ◌≤◌, ◌<◌, String, ◌≡◌, refl, sym, ap, ◌∙◌, false, ◌&&◌, Option,
  none, some, List, [], ◌∷◌, arith, str_eq, ltb, leb, if◌then◌else◌,
}
use mathlib.Core.Path.{subst}
use arduino_component_knowle.Exec.{Result, ok, continue, ◌>>=◌}
use arduino_component_knowle.Auth.Domain.{Time, AuthError}
use arduino_component_knowle.Auth.Schema.{AuthThrottle, Db}
use arduino_component_knowle.Auth.Throttle.{
  LockoutPolicy, seconds, count_failure, register_key, register_failure, is_blocked, blocked_at,
}
use arduino_component_knowle.Auth.Throttle.Rows.{
  row_of, row_or_fresh, KeysDistinct, row_of-register_key, row_of-register_key_ne, register_key-ok,
  register_key-KeysDistinct,
}
use arduino_component_knowle.Auth.Throttle.Blocked.{is_blocked-row_of}

module _ (p : LockoutPolicy) where
  -- `register_failure` at one time, run on the database.
  abbrev pub after_failure : List String → Time → Db → Db
  after_failure keys now db = (register_failure p keys now db).1

  after-cons :
      (key : String) (keys : List String) (now : Time) (db : Db)
      → after_failure (key ∷ keys) now db ≡ after_failure keys now (register_key p now key db).1
  unfolding register_failure ◌>>=◌
  after-cons key keys now db =
      ap
        (λ (r : Result AuthError (Unit {0})).
          (continue r (λ _. register_failure p keys now) (register_key p now key db).1).1)
        (register_key-ok p now key db)

  after-nil : (now : Time) (db : Db) → after_failure [] now db ≡ db
  unfolding register_failure ◌>>=◌
  after-nil now db = refl

  -- With no other transaction in between, `register_failure` returns: the row that it inserts is
  -- found.
  pub register_failure-ok :
      (keys : List String) (now : Time) (db : Db) → (register_failure p keys now db).0 ≡ ok tt
  unfolding register_failure ◌>>=◌
  register_failure-ok [] now db = refl
  register_failure-ok (key ∷ keys) now db =
      rw (register_key-ok p now key db) (register_failure-ok keys now (register_key p now key db).1)

  pub register_failure-KeysDistinct :
      (keys : List String) (now : Time) (db : Db)
      → KeysDistinct db
      → KeysDistinct (after_failure keys now db)
  register_failure-KeysDistinct [] now db d = subst KeysDistinct (sym (after-nil now db)) d
  register_failure-KeysDistinct (key ∷ keys) now db d =
      subst KeysDistinct (sym (after-cons key keys now db)) (
        register_failure-KeysDistinct keys now (register_key p now key db).1
          (register_key-KeysDistinct p now key db d))

  -- Rows of keys that are not in the list stay.
  pub row_of-register_failure_ne :
      (keys : List String) (now : Time) (other : String) (db : Db)
      → any (str_eq other) keys ≡ false
      → row_of other (after_failure keys now db) ≡ row_of other db
  row_of-register_failure_ne [] now other db h = ap (row_of other) (after-nil now db)
  row_of-register_failure_ne (key ∷ keys) now other db h =
      ap (row_of other) (after-cons key keys now db)
      ∙ row_of-register_failure_ne keys now other (register_key p now key db).1 (ground arith)
      ∙ row_of-register_key_ne p now key other db (ground arith)

  abbrev pub failures : String → List Time → Db → Db
  failures key [] db = db
  failures key (t ∷ ts) db = failures key ts (after_failure (key ∷ []) t db)

  abbrev last : Time → List Time → Time
  last t [] = t
  last t (u ∷ ts) = last u ts

  abbrev expected : ℕ → Time → Option Time
  expected n t = if leb p.failure_limit n then some (t + seconds p.block_seconds) else none

  record RowAt (started : Time) (n : ℕ) (at : Time) (r : AuthThrottle) : Type 0 where
    started_eq : r.window_started_at ≡ started
    count_eq : r.failure_count ≡ n
    blocked_eq : r.blocked_until ≡ expected n at

  -- a row that the next failure starts again
  abbrev pub Restarts : Time → Option AuthThrottle → Type 0
  Restarts now none = Unit
  Restarts now (some r) = r.window_started_at + seconds p.window_seconds ≤ now

  first_RowAt :
      (key : String) (now : Time) (o : Option AuthThrottle)
      → Restarts now o
      → RowAt now 1 now (count_failure p now (row_or_fresh key now o))
  unfolding count_failure
  first_RowAt key now none h = ground arith
  first_RowAt key now (some r) h = ground arith

  next_RowAt :
      (started t now : Time) (n : ℕ) (r : AuthThrottle)
      → RowAt started n t r
      → now < started + seconds p.window_seconds
      → RowAt started (n + 1) now (count_failure p now r)
  unfolding count_failure
  next_RowAt started t now n r h w = ground arith

  blocked_of_RowAt :
      (started : Time) (n : ℕ) (at now : Time) (r : AuthThrottle)
      → RowAt started n at r
      → blocked_at now r.blocked_until
        ≡ (leb p.failure_limit n && ltb now (at + seconds p.block_seconds))
  blocked_of_RowAt started n at now r h = rw h.blocked_eq (ground arith)

  row_after :
      (key : String) (now : Time) (db : Db) (o : Option AuthThrottle)
      → row_of key db ≡ o
      → row_of key (after_failure (key ∷ []) now db)
        ≡ some (count_failure p now (row_or_fresh key now o))
  row_after key now db o e =
      ap (row_of key) (after-cons key [] now db ∙ after-nil now (register_key p now key db).1)
      ∙ row_of-register_key p now key db
      ∙ ap (λ q. some (count_failure p now (row_or_fresh key now q))) e

  failures-RowAt :
      (key : String) (started t : Time) (n : ℕ) (ts : List Time) (db : Db) (r : AuthThrottle)
      → row_of key db ≡ some r
      → RowAt started n t r
      → All (λ u. u < started + seconds p.window_seconds) ts
      → (r' : AuthThrottle) × (row_of key (failures key ts db) ≡ some r')
        × RowAt started (n + length ts) (last t ts) r'
  failures-RowAt key started t n [] db r e h w = (r, e, rw (add-zero n) h)
  failures-RowAt key started t n (u ∷ ts) db r e h w =
      let (r', found, at) =
        failures-RowAt key started u (n + 1) ts (after_failure (key ∷ []) u db)
          (count_failure p u r) (row_after key u db (some r) e) (next_RowAt started t u n r h w.0)
          w.1 in
      (r', found, subst (λ k. RowAt started k (last u ts) r') (omega arith) at)

  failures-KeysDistinct :
      (key : String) (ts : List Time) (db : Db)
      → KeysDistinct db
      → KeysDistinct (failures key ts db)
  failures-KeysDistinct key [] db d = d
  failures-KeysDistinct key (t ∷ ts) db d =
      failures-KeysDistinct key ts (after_failure (key ∷ []) t db)
        (register_failure-KeysDistinct (key ∷ []) t db d)

  -- Failures at `started` and at `ts`, all within the window that `started` opens, block the key
  -- exactly while the failures number the limit or more and the block counted from the last one
  -- has not ended. The key has no row before, or one whose window has ended.
  pub lockout_exact :
      (key : String) (started : Time) (ts : List Time) (now : Time) (db : Db)
      → KeysDistinct db
      → Restarts started (row_of key db)
      → All (λ u. u < started + seconds p.window_seconds) ts
      → is_blocked (key ∷ []) now (failures key (started ∷ ts) db) ≡ (
          leb p.failure_limit (suc (length ts))
          && ltb now (last started ts + seconds p.block_seconds))
  lockout_exact key started ts now db d fresh w =
      let before : Option AuthThrottle = row_of key db in
      let (r, found, at) =
        failures-RowAt key started started 1 ts (after_failure (key ∷ []) started db)
          (count_failure p started (row_or_fresh key started before))
          (row_after key started db before refl) (first_RowAt key started before fresh) w in
      is_blocked-row_of key now (failures key (started ∷ ts) db)
        (failures-KeysDistinct key (started ∷ ts) db d)
      ∙ rw found
          (blocked_of_RowAt started (1 + length ts) (last started ts) now r at ∙ ground arith)
