-- ===== src/Dispatch/Queries.antt =====
-- SELECT ... JOIN ... ORDER BY ... LIMIT, as src/arduino_component_kb/dispatch/repository.py uses it.
use arduino_component_knowle.Prelude.{
  ℕ, Bool, true, false, ◌+◌, ◌&&◌, ◌||◌, Option, none, some, List, [], ◌∷◌, ◌++◌, ltb, leb, ◌==◌,
  if◌then◌else◌,
}
use arduino_component_knowle.Auth.Domain.{Time, Uuid}
use arduino_component_knowle.Auth.Throttle.{seconds}
use arduino_component_knowle.Dispatch.Schema.{JobType, JobDispatch}

-- by a time, then by the identifier
abbrev pub earlier : Time → Uuid → Time → Uuid → Bool
earlier s a t b = ltb s t || (s == t && ltb a b)

-- `column <= now - timedelta(seconds=n)`, false on NULL
abbrev pub older_than : ℕ → Time → Option Time → Bool
older_than n now none = false
older_than n now (some t) = leb (t + seconds n) now

-- `column IS NOT NULL AND column <= now`
abbrev pub is_due : Time → Option Time → Bool
is_due now none = false
is_due now (some t) = leb t now

-- `column IS NULL OR column <= now - timedelta(seconds=n)`
abbrev pub is_stale : ℕ → Time → Option Time → Bool
is_stale n now none = true
is_stale n now (some t) = leb (t + seconds n) now

module _ {J : Type 0} where
  abbrev pub with_job : JobDispatch → Option J → List (JobDispatch × J)
  with_job dispatch none = []
  with_job dispatch (some job) = (dispatch, job) ∷ []

  -- The dispatches of one type, each with its job: `job_id` refers to a primary key.
  abbrev pub join_jobs :
      (JobType → Bool) → (Uuid → Option J) → List JobDispatch → List (JobDispatch × J)
  join_jobs of_type lookup [] = []
  join_jobs of_type lookup (dispatch ∷ rest) =
      let joined = join_jobs of_type lookup rest in
      if of_type dispatch.job_type
      then with_job dispatch (lookup dispatch.job_id) ++ joined
      else joined
