-- ===== src/Registry/Integrity.antt =====
-- store.rs: how `verify` and `forget` change what the registry answers.
use mehoy_malloy_ai_runtime.Common.{
  ◌≡◌, refl, sym, ap, ◌∙◌, ◌⊎◌, inl, inr, Bool, Option, none, some, List, [], ◌∷◌, arith, ltb,
  Bool-cases, Result, ok, err, ok-injective, is_some, length, keep_if,
}
use mehoy_malloy_ai_runtime.Common.Text.{Text}
use mehoy_malloy_ai_runtime.Registry.{
  ArtifactIntegrity, verified, sha256, sha256_word, algorithm_from_stored, ModelArtifact,
}
use mehoy_malloy_ai_runtime.Registry.Store.{
  storage, Row, row_to_artifact, mapped, integrity_of, verified_word,
}
use mehoy_malloy_ai_runtime.Registry.Operations.{
  Database, stored, read_from, known, get, verify, forget,
}
use mehoy_malloy_ai_runtime.Registry.Table.{
  has_id, find_row, find_row-updated, find_row-kept, set_integrity, IsStore, bind-ok,
}
use mehoy_malloy_ai_runtime.Registry.Registering.{stored-ok, read_from-ok}
use mehoy_malloy_ai_runtime.Registry.Laws.{get-row, get-absent}

verified_row :
    (digest : Text) (row : Row)
    → row_to_artifact (set_integrity verified_word sha256_word digest row)
      ≡ record (row_to_artifact row) { integrity = verified sha256 digest }
unfolding row_to_artifact integrity_of algorithm_from_stored
verified_row digest row = refl

length-find_row :
    (test : Row → Bool) (rows : List Row)
    → ltb 0 (length (keep_if test rows)) ≡ is_some (find_row test rows)
unfolding find_row
length-find_row test [] = refl
length-find_row test (row ∷ rows) = elim (Bool-cases (test row)) [
  | inl e ↦ rw e (ground arith)
  | inr e ↦ rw e (length-find_row test rows)
]

known-found :
    (id : Text) (found : Option Row) (a : ModelArtifact)
    → known id (mapped row_to_artifact found) ≡ ok a
    → (row : Row) × (found ≡ some row) × (a ≡ row_to_artifact row)
known-found id none a h = cc
known-found id (some row) a h = (row, refl, sym (ok-injective h))

module _ {Db : Type 0} (database : Database Db) (rows : Db → List Row)
    (store : IsStore database rows) where
  get-find_row :
      (id : Text) (db : Db) (found : Option ModelArtifact)
      → get database id db ≡ ok found
      → found ≡ mapped row_to_artifact (find_row (has_id id) (rows db))
  unfolding get
  get-find_row id db found h =
      let (r, p, q) = bind-ok (stored (database.select_id id db)) _ found h in
      sym (ok-injective q)
      ∙ ap (mapped row_to_artifact)
          (store.id_found id db r (stored-ok (database.select_id id db) r p))

  -- An artifact that was verified is held as verified: where `verify` succeeds, the artifact stood in
  -- the table, the digest it answers is that of the file at the artifact's path, and a later `get`
  -- answers the same artifact with that integrity, or that the database failed.
  pub verify-get :
      (hash : Text → Result Text Text) (id : Text) (db db' : Db) (i : ArtifactIntegrity)
      → verify database hash id db ≡ ok (i, db')
      → (row : Row) × (digest : Text) × (find_row (has_id id) (rows db) ≡ some row)
        × (hash (row_to_artifact row).path ≡ ok digest)
        × (i ≡ verified sha256 digest)
        × ((get database id db' ≡ ok (some (record (row_to_artifact row) { integrity = i })))
            ⊎ ((e : Text) × (get database id db' ≡ err (storage e))))
  unfolding verify
  verify-get hash id db db' i h =
      let (found, p0, h0) = bind-ok (get database id db) _ (i, db') h in
      let (a, p1, h1) = bind-ok (known id found) _ (i, db') h0 in
      let (digest, p2, h2) = bind-ok (read_from (hash a.path)) _ (i, db') h1 in
      let (db1, p3, h3) =
        bind-ok (stored (database.update_integrity verified_word sha256_word digest id db)) _
          (i, db') h2 in
      let is = get-find_row id db found p0 in
      let (row, e, f) =
        known-found id (find_row (has_id id) (rows db)) a (ap (known id) (sym is) ∙ p1) in
      let same : (verified sha256 digest, db1) ≡ (i, db') = ok-injective h3 in
      let same_i : verified sha256 digest ≡ i = ap (λ (x : ArtifactIntegrity × Db). x.0) same in
      let same_db : db1 ≡ db' = ap (λ (x : ArtifactIntegrity × Db). x.1) same in
      let row' = set_integrity verified_word sha256_word digest row in
      let after : find_row (has_id id) (rows db') ≡ some row' =
        ap (λ x. find_row (has_id id) (rows x)) (sym same_db)
        ∙ ap (find_row (has_id id)) (
            store.updated verified_word sha256_word digest id db db1
              (stored-ok (database.update_integrity verified_word sha256_word digest id db) db1 p3))
        ∙ find_row-updated verified_word sha256_word digest id (rows db) row e in
      let held : row_to_artifact row' ≡ record (row_to_artifact row) { integrity = i } =
        verified_row digest row ∙ ap (λ x. record (row_to_artifact row) { integrity = x }) same_i in
      (
        row,
        digest,
        e,
        ap (λ (x : ModelArtifact). hash x.path) (sym f) ∙ read_from-ok (hash a.path) digest p2,
        sym same_i,
        elim (get-row database rows store id db' row' after) [
          | inl g ↦ inl (g ∙ ap (λ x. ok (some x)) held)
          | inr x ↦ inr x
        ],
      )

  -- A forgotten artifact is gone: where `forget` succeeds, it answers whether there was an artifact of
  -- that id, and a later `get` answers that there is none, or that the database failed.
  pub forget-get :
      (id : Text) (db db' : Db) (was : Bool)
      → forget database id db ≡ ok (was, db')
      → (was ≡ is_some (find_row (has_id id) (rows db)))
        × ((get database id db' ≡ ok none) ⊎ ((e : Text) × (get database id db' ≡ err (storage e))))
  unfolding forget
  forget-get id db db' was h =
      let ((n, db1), p, q) = bind-ok (stored (database.delete_row id db)) _ (was, db') h in
      let same : (ltb 0 n, db1) ≡ (was, db') = ok-injective q in
      let was_some : ltb 0 n ≡ was = ap (λ (x : Bool × Db). x.0) same in
      let same_db : db1 ≡ db' = ap (λ (x : Bool × Db). x.1) same in
      let (left, count) =
        store.deleted id db db1 n (stored-ok (database.delete_row id db) (n, db1) p) in
      (
        sym was_some ∙ (ap (ltb 0) count ∙ length-find_row (has_id id) (rows db)),
        get-absent database rows store id db' (
            ap (λ x. find_row (has_id id) (rows x)) (sym same_db)
            ∙ (ap (find_row (has_id id)) left ∙ find_row-kept id (rows db))),
      )
