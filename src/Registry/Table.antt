-- ===== src/Registry/Table.antt =====
-- store.rs: what SQLite documents of the statements, on the rows of the table `artifacts`.
use mehoy_malloy_ai_runtime.Common.{
  ℕ, ◌≡◌, refl, ap, inl, inr, Bool, true, not, Option, none, some, List, [], ◌∷◌, map,
  if◌then◌else◌, Bool-cases, Result, ok, ◌>>=◌, err, length, keep_if,
}
use mehoy_malloy_ai_runtime.Common.Text.{Text, text_eq}
use mehoy_malloy_ai_runtime.Registry.Store.{Row, mapped}
use mehoy_malloy_ai_runtime.Registry.Operations.{Database}

abbrev pub has_id : Text → Row → Bool
has_id id row = text_eq row.id id

abbrev pub has_path : Text → Row → Bool
has_path path row = text_eq row.canonical_path path

unfoldable pub find_row : (Row → Bool) → List Row → Option Row
find_row test [] = none
find_row test (row ∷ rows) = let rest = find_row test rows in if test row then some row else rest

abbrev pub set_integrity : (state algorithm digest : Text) → Row → Row
set_integrity state algorithm digest row = record row {
  integrity_state = state;
  digest_algorithm = some algorithm;
  digest = some digest;
}

-- `UPDATE artifacts SET integrity_state, digest_algorithm, digest WHERE id`, on a row.
abbrev pub with_integrity : (state algorithm digest id : Text) → Row → Row
with_integrity state algorithm digest id row =
    if has_id id row then set_integrity state algorithm digest row else row

-- The statements on the rows of the table: `id` is its primary key and `canonical_path` unique.
pub record IsStore {Db : Type 0} (database : Database Db) (rows : Db → List Row) : Type 0 where
  pub begun : (db db' : Db) → database.begins db ≡ ok db' → rows db' ≡ rows db
  pub inserted :
      (row : Row) (db db' : Db)
      → database.insert_row row db ≡ ok db'
      → (rows db' ≡ row ∷ rows db)
        × (find_row (has_id row.id) (rows db) ≡ none)
        × (find_row (has_path row.canonical_path) (rows db) ≡ none)
  pub entry_put :
      (id key value : Text) (db db' : Db)
      → database.put_entry id key value db ≡ ok db'
      → rows db' ≡ rows db
  pub commit_kept : (db db' : Db) → database.commits db ≡ ok db' → rows db' ≡ rows db
  pub id_found :
      (id : Text) (db : Db) (r : Option Row)
      → database.select_id id db ≡ ok r
      → r ≡ find_row (has_id id) (rows db)
  pub path_found :
      (path : Text) (db : Db) (r : Option Row)
      → database.select_path path db ≡ ok r
      → r ≡ find_row (has_path path) (rows db)
  pub updated :
      (state algorithm digest id : Text) (db db' : Db)
      → database.update_integrity state algorithm digest id db ≡ ok db'
      → rows db' ≡ map (with_integrity state algorithm digest id) (rows db)
  pub deleted :
      (id : Text) (db db' : Db) (n : ℕ)
      → database.delete_row id db ≡ ok (n, db')
      → (rows db' ≡ keep_if (λ row. not (has_id id row)) (rows db))
        × (n ≡ length (keep_if (has_id id) (rows db)))

pub bind-ok {ℓ κ ν} :
    {A : Type ℓ} {B : Type κ} {E : Type ν} (m : Result A E) (f : A → Result B E) (b : B)
    → (m >>= f) ≡ ok b
    → (a : A) × (m ≡ ok a) × (f a ≡ ok b)
bind-ok (ok a) f b h = (a, refl, h)
bind-ok (err e) f b h = cc

pub find_row-first :
    (test : Row → Bool) (row : Row) (rows : List Row)
    → test row ≡ true
    → find_row test (row ∷ rows) ≡ some row
unfolding find_row
find_row-first test row rows h = rw h refl

-- The update touches the row of its id and no other.
pub find_row-updated :
    (state algorithm digest id : Text) (rows : List Row) (row : Row)
    → find_row (has_id id) rows ≡ some row
    → find_row (has_id id) (map (with_integrity state algorithm digest id) rows)
      ≡ some (set_integrity state algorithm digest row)
unfolding find_row
find_row-updated state algorithm digest id [] row h = cc
find_row-updated state algorithm digest id (x ∷ rows) row h = elim (Bool-cases (has_id id x)) [
  | inl e ↦
      rw (e, e)
        (let k : some x ≡ some row = rw e at h in
          ap (mapped (set_integrity state algorithm digest)) k)
  | inr e ↦ rw (e, e) (find_row-updated state algorithm digest id rows row (rw e at h))
]

pub find_row-kept :
    (id : Text) (rows : List Row)
    → find_row (has_id id) (keep_if (λ row. not (has_id id row)) rows) ≡ none
unfolding find_row
find_row-kept id [] = refl
find_row-kept id (x ∷ rows) = elim (Bool-cases (has_id id x)) [
  | inl e ↦ rw e (find_row-kept id rows)
  | inr e ↦ rw e (rw e (find_row-kept id rows))
]
