-- ===== src/Catalog/Batch/Latest.antt =====
-- The batch of `_published_cards` of src/arduino_component_kb/catalog/service.py against the query of
-- `_published_card`.
use mathlib.Core.Path.{subst}
use arduino_component_knowle.Prelude.{
  ℕ, any, filter_rows, Distinct, ◌≡◌, refl, sym, ap, ◌∙◌, ◌⊎◌, inl, inr, Bool, true, false, ◌&&◌,
  Option, none, some, List, [], ◌∷◌, arith, ltb, ◌==◌, if◌then◌else◌, Bool-cases, Option-cases,
  ==_refl, ==_iff,
}
use arduino_component_knowle.Auth.Domain.{Uuid}
use arduino_component_knowle.Catalog.Schema.{ComponentRevision}
use arduino_component_knowle.Catalog.Published.{is_published_of, latest_published}
use arduino_component_knowle.Catalog.Batch.{later_or, last_of, group_max, is_joined, batch_snapshot}

-- `UNIQUE (component_id, revision)`
abbrev pub same_revision : ComponentRevision → ComponentRevision → Bool
same_revision a b = a.component_id == b.component_id && a.revision == b.revision

abbrev pub UniqueRevisions : List ComponentRevision → Type 0
UniqueRevisions rows = Distinct same_revision rows

-- The row is in the table.
abbrev In : {A : Type 0} → A → List A → Type 0
In x [] = ⊥
In x (y ∷ ys) = (y ≡ x) ⊎ In x ys

module _ {A : Type 0} where
  later_or-none : (o : Option A) → later_or o none ≡ o
  later_or-none none = refl
  later_or-none (some x) = refl

  last_of-filter_rows :
      (p q : A → Bool) (rows : List A)
      → last_of p (filter_rows q rows) ≡ last_of (λ x. p x && q x) rows
  last_of-filter_rows p q [] = refl
  last_of-filter_rows p q (x ∷ xs) = elim (Bool-cases (q x)) [
    | inl e ↦ elim (Bool-cases (p x)) [
      | inl f ↦ rw (e, f, last_of-filter_rows p q xs) refl
      | inr f ↦ rw (e, f, last_of-filter_rows p q xs) refl
    ]
    | inr e ↦ elim (Bool-cases (p x)) [
      | inl f ↦ rw (e, f, last_of-filter_rows p q xs) (sym (later_or-none _))
      | inr f ↦ rw (e, f, last_of-filter_rows p q xs) (sym (later_or-none _))
    ]
  ]

  last_of-same :
      (p q : A → Bool) (rows : List A) → ((x : A) → p x ≡ q x) → last_of p rows ≡ last_of q rows
  last_of-same p q [] same = refl
  last_of-same p q (x ∷ xs) same = rw (last_of-same p q xs same, same x) refl

  last_of-absent : (p : A → Bool) (rows : List A) → any p rows ≡ false → last_of p rows ≡ none
  last_of-absent p [] h = refl
  last_of-absent p (x ∷ xs) h = elim (Bool-cases (p x)) [
    | inl e ↦ absurd (cc)
    | inr e ↦ let none_later : any p xs ≡ false = cc in rw (e, last_of-absent p xs none_later) refl
  ]

any-never : {A : Type 0} (rows : List A) → any (λ x. false) rows ≡ false
any-never [] = refl
any-never (x ∷ xs) = any-never xs

-- With unique revisions a row is the only one with its key.
last_of-In :
    (row : ComponentRevision) (rows : List ComponentRevision)
    → UniqueRevisions rows
    → In row rows
    → last_of (same_revision row) rows ≡ some row
last_of-In row [] unique found = absurd found
last_of-In row (first ∷ rest) unique (inl same) =
    let own : same_revision row row ≡ true =
      rw (==_refl row.component_id, ==_refl row.revision) refl in
    let alone : any (same_revision row) rest ≡ false =
      ap (λ r. any (same_revision r) rest) (sym same) ∙ unique.0 in
    rw (same, last_of-absent (same_revision row) rest alone, own) refl
last_of-In row (first ∷ rest) unique (inr found) = rw (last_of-In row rest unique.1 found) refl

-- The latest published row is in the table, is published and has the greatest revision.
abbrev revision_of : Option ComponentRevision → Option ℕ
revision_of none = none
revision_of (some row) = some row.revision

greater_of : (a b : ℕ) → (if ltb a b then b else a) ≡ (if ltb b a then a else b)
greater_of a b = ground arith

revision_of-if :
    (test : Bool) (a b : ComponentRevision)
    → some (if test then a.revision else b.revision) ≡ revision_of (if test then some a else some b)
revision_of-if true a b = refl
revision_of-if false a b = refl

chosen_revision :
    (a b : ComponentRevision)
    → some (if ltb a.revision b.revision then b.revision else a.revision)
      ≡ revision_of (if ltb b.revision a.revision then some a else some b)
chosen_revision a b =
    ap some (greater_of a.revision b.revision) ∙ revision_of-if (ltb b.revision a.revision) a b

group_max-latest :
    (id : Uuid) (rows : List ComponentRevision)
    → group_max id rows ≡ revision_of (latest_published id rows)
unfolding latest_published
group_max-latest id [] = refl
group_max-latest id (row ∷ rows) = elim (Bool-cases (is_published_of id row)) [
  | inl e ↦ elim (Option-cases (latest_published id rows)) [
    | inl n ↦ rw (e, group_max-latest id rows, n, e) refl
    | inr (best, n) ↦ rw (e, group_max-latest id rows, n, e) (chosen_revision row best)
  ]
  | inr e ↦ elim (Option-cases (latest_published id rows)) [
    | inl n ↦ rw (e, group_max-latest id rows, n, e) refl
    | inr (best, n) ↦ rw (e, group_max-latest id rows, n, e) refl
  ]
]

both_left : (a b : Bool) → (a && b) ≡ true → a ≡ true
both_left true b h = refl
both_left false b h = cc

published_own :
    (id : Uuid) (row : ComponentRevision)
    → is_published_of id row ≡ true
    → (row.component_id == id) ≡ true
published_own id row h = both_left _ _ h

latest_published-In :
    (id : Uuid) (rows : List ComponentRevision) (best : ComponentRevision)
    → latest_published id rows ≡ some best
    → In best rows × ((best.component_id == id) ≡ true)
unfolding latest_published
latest_published-In id [] best e = absurd (cc)
latest_published-In id (row ∷ rows) best e = elim (Option-cases (latest_published id rows)) [
  | inl n ↦ elim (Bool-cases (is_published_of id row)) [
    | inl p ↦ let same : row ≡ best = cc in (inl same, rw (sym same) (published_own id row p))
    | inr p ↦ absurd (cc)
  ]
  | inr (other, n) ↦ elim (Bool-cases (is_published_of id row && ltb other.revision row.revision)) [
    | inl p ↦
        let same : row ≡ best = cc in
        (inl same, rw (sym same) (published_own id row (both_left _ _ p)))
    | inr p ↦
        let same : other ≡ best = cc in
        let (found, own) = latest_published-In id rows other n in
        (inr (subst (λ r. In r rows) same found), rw (sym same) own)
  ]
]

==_comm : (a b : ℕ) → (a == b) ≡ (b == a)
==_comm a b = ground arith

-- ## The snapshot of the batch

-- Of the rows of the component, the joined ones have the revision of the latest.
joined_key :
    (ids : List Uuid) (rows : List ComponentRevision) (id : Uuid) (best row : ComponentRevision)
    → any (λ i. i == id) ids ≡ true
    → latest_published id rows ≡ some best
    → (best.component_id == id) ≡ true
    → (row.component_id == id && is_joined ids rows row) ≡ same_revision best row
joined_key ids rows id best row asked latest own = elim (Bool-cases (row.component_id == id)) [
  | inl e ↦
      let here : row.component_id ≡ id = (==_iff _ _).0 e in
      let there : best.component_id ≡ id = (==_iff _ _).0 own in
      let asked_here : any (λ i. i == row.component_id) ids ≡ true =
        ap (λ own_id. any (λ i. i == own_id) ids) here ∙ asked in
      let greatest =
        ap (λ own_id. group_max own_id rows) here
        ∙ group_max-latest id rows
        ∙ ap revision_of latest in
      let same_card : (best.component_id == row.component_id) ≡ true = ground arith in
      rw (e, asked_here, greatest, same_card) (==_comm row.revision best.revision)
  | inr e ↦
      let other_card : (best.component_id == row.component_id) ≡ false = ground arith in
      rw (e, other_card) refl
]

and_never : (b : Bool) → (b && false) ≡ false
and_never true = refl
and_never false = refl

-- Without a published row the batch joins none.
joined_none :
    (ids : List Uuid) (rows : List ComponentRevision) (id : Uuid) (row : ComponentRevision)
    → latest_published id rows ≡ none
    → (row.component_id == id && is_joined ids rows row) ≡ false
joined_none ids rows id row latest = elim (Bool-cases (row.component_id == id)) [
  | inl e ↦
      let here : row.component_id ≡ id = (==_iff _ _).0 e in
      let nothing =
        ap (λ own_id. group_max own_id rows) here
        ∙ group_max-latest id rows
        ∙ ap revision_of latest in
      rw (e, nothing) (and_never _)
  | inr e ↦ rw e refl
]

-- Where the revisions of a card are unique, the snapshot that the batch query reads for a requested
-- card is the one that the query for one card reads.
pub batch_snapshot-latest :
    (ids : List Uuid) (rows : List ComponentRevision) (id : Uuid)
    → UniqueRevisions rows
    → any (λ i. i == id) ids ≡ true
    → batch_snapshot ids rows id ≡ latest_published id rows
unfolding batch_snapshot
batch_snapshot-latest ids rows id unique asked =
    last_of-filter_rows (λ row. row.component_id == id) (is_joined ids rows) rows
    ∙ elim (Option-cases (latest_published id rows)) [
      | inl n ↦
          last_of-same _ (λ row. false) rows (λ row. joined_none ids rows id row n)
          ∙ last_of-absent (λ row. false) rows (any-never rows)
          ∙ sym n
      | inr (best, n) ↦
          let (found, own) = latest_published-In id rows best n in
          last_of-same _ (same_revision best) rows
            (λ row. joined_key ids rows id best row asked n own)
          ∙ last_of-In best rows unique found
          ∙ sym n
    ]
