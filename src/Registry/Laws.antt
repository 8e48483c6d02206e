-- ===== src/Registry/Laws.antt =====
-- store.rs: what the registry promises of an artifact after it was registered.
use mehoy_malloy_ai_runtime.Common.{
  ℕ, ◌≤◌, ◌≡◌, refl, ap, ◌∙◌, ◌⊎◌, inl, inr, Bool, false, Option, none, some, List, arith, ==_refl,
  Result, ok, err, Result-cases,
}
use mehoy_malloy_ai_runtime.Common.Text.{Text, text_eq, text_eq_refl}
use mathlib.Core.Path.{subst}
use mehoy_malloy_ai_runtime.Registry.{
  SystemTime, since_epoch, before_epoch, time_eq, has_moved, ArtifactFingerprint, ModelArtifact,
  unchanged, detect_drift,
}
use mehoy_malloy_ai_runtime.Registry.Store.{
  storage, registered, already_registered, Row, row_to_artifact, artifact_row, mapped, i64_max,
  saturated, from_epoch_nanos, to_epoch_nanos,
}
use mehoy_malloy_ai_runtime.Registry.Operations.{
  Database, Answers, read_from, check_file, get, find_by_path, check, register_unless, register,
}
use mehoy_malloy_ai_runtime.Registry.Table.{
  has_id, has_path, find_row, find_row-first, IsStore, bind-ok,
}
use mehoy_malloy_ai_runtime.Registry.Registering.{
  read_from-ok, IsRegistered, register_new-IsRegistered,
}

-- A modification time that the table can hold: it is not before the epoch, and its nanoseconds fit.
abbrev pub IsRemembered : Option SystemTime → Type 0
IsRemembered none = Unit {0}
IsRemembered (some (since_epoch nanos)) = nanos ≤ i64_max
IsRemembered (some (before_epoch nanos)) = ⊥

pub saturated_lem : (n : ℕ) → n ≤ i64_max → saturated n ≡ n
saturated_lem n h = ground arith

remembered_same :
    (t : Option SystemTime)
    → IsRemembered t
    → has_moved t (mapped from_epoch_nanos (mapped to_epoch_nanos t)) ≡ false
unfolding has_moved time_eq
remembered_same none h = refl
remembered_same (some (since_epoch n)) h = rw (saturated_lem n h, ==_refl n) refl
remembered_same (some (before_epoch n)) h = absurd h

detect_drift-row :
    (path : Text) (a : ModelArtifact)
    → a.size_bytes ≡ a.fingerprint.size_bytes
    → a.size_bytes ≤ i64_max
    → IsRemembered a.fingerprint.modified_at
    → detect_drift (ok a.fingerprint) (row_to_artifact (artifact_row path a)) ≡ unchanged
unfolding detect_drift row_to_artifact artifact_row
detect_drift-row path a e fits remembered =
    rw
      (
        saturated_lem a.size_bytes fits,
        e,
        ==_refl a.fingerprint.size_bytes,
        remembered_same a.fingerprint.modified_at remembered,
      )
      refl

module _ {Db : Type 0} (database : Database Db) (rows : Db → List Row)
    (store : IsStore database rows) where
  -- What a select by id answers, by the table.
  pub get-row :
      (id : Text) (db : Db) (row : Row)
      → find_row (has_id id) (rows db) ≡ some row
      → (get database id db ≡ ok (some (row_to_artifact row)))
        ⊎ ((e : Text) × (get database id db ≡ err (storage e)))
  unfolding get
  get-row id db row h = elim (Result-cases (database.select_id id db)) [
    | inl (r, e) ↦ inl (rw (e, store.id_found id db r e, h) refl)
    | inr (x, e) ↦ inr (x, rw e refl)
  ]

  pub get-absent :
      (id : Text) (db : Db)
      → find_row (has_id id) (rows db) ≡ none
      → (get database id db ≡ ok none) ⊎ ((e : Text) × (get database id db ≡ err (storage e)))
  unfolding get
  get-absent id db h = elim (Result-cases (database.select_id id db)) [
    | inl (r, e) ↦ inl (rw (e, store.id_found id db r e, h) refl)
    | inr (x, e) ↦ inr (x, rw e refl)
  ]

  find_by_path-row :
      (path : Text) (db : Db) (row : Row)
      → find_row (has_path path) (rows db) ≡ some row
      → (find_by_path database path db ≡ ok (some (row_to_artifact row)))
        ⊎ ((e : Text) × (find_by_path database path db ≡ err (storage e)))
  unfolding find_by_path
  find_by_path-row path db row h = elim (Result-cases (database.select_path path db)) [
    | inl (r, e) ↦ inl (rw (e, store.path_found path db r e, h) refl)
    | inr (x, e) ↦ inr (x, rw e refl)
  ]

  module _ (f32_text f64_text : ℕ → Text) (is_utf8 : Text → Bool)
      (to_string_lossy : Text → Text) where
    register_unless-registered :
        (existing : Option ModelArtifact) (s : Answers) (c : Text) (db db' : Db) (a : ModelArtifact)
        → register_unless database f32_text f64_text is_utf8 to_string_lossy existing s c db
          ≡ ok (registered a, db')
        → IsRegistered database rows store f32_text f64_text is_utf8 to_string_lossy s c a db db'
    unfolding register_unless
    register_unless-registered (some b) s c db db' a h = cc
    register_unless-registered none s c db db' a h =
        let (a', e, k) =
          register_new-IsRegistered database rows store f32_text f64_text is_utf8 to_string_lossy s
            c db db' (registered a) h in
        let same : a' ≡ a = cc in
        subst
          (λ x.
            IsRegistered database rows store f32_text f64_text is_utf8 to_string_lossy s c x db db')
          same k

    register-registered :
        (s : Answers) (path : Text) (db db' : Db) (a : ModelArtifact)
        → register database f32_text f64_text is_utf8 to_string_lossy s path db
          ≡ ok (registered a, db')
        → (canonical : Text) × (s.canonical ≡ ok canonical)
          × IsRegistered database rows store f32_text f64_text is_utf8 to_string_lossy s canonical a
              db db'
    unfolding register register_unless
    register-registered s path db db' a h =
        let (u, p0, h0) = bind-ok (check_file path s.is_dir) _ (registered a, db') h in
        let (c, p1, h1) = bind-ok (read_from s.canonical) _ (registered a, db') h0 in
        let (existing, p2, h2) =
          bind-ok (find_by_path database (to_string_lossy c) db) _ (registered a, db') h1 in
        (c, read_from-ok s.canonical c p1, register_unless-registered existing s c db db' a h2)

    -- A path that a call of `register` has just recorded is not recorded twice: on the database that
    -- this call leaves, with no other call between, a `register` of a file that passes the check of
    -- its path and whose canonical path reads the same, whatever the file has become, answers the
    -- artifact as the table holds it and leaves the database as it is, or answers that the database
    -- failed.
    pub register_again :
        (s s' : Answers) (path path' canonical : Text) (db db' : Db) (a : ModelArtifact)
        → register database f32_text f64_text is_utf8 to_string_lossy s path db
          ≡ ok (registered a, db')
        → check_file path' s'.is_dir ≡ ok tt
        → s'.canonical ≡ ok canonical
        → to_string_lossy canonical ≡ to_string_lossy a.path
        → (register database f32_text f64_text is_utf8 to_string_lossy s' path' db'
            ≡ ok (
              already_registered (row_to_artifact (artifact_row (to_string_lossy a.path) a)),
              db',
            ))
          ⊎ ((e : Text) × (register database f32_text f64_text is_utf8 to_string_lossy s' path' db'
                ≡ err (storage e)))
    unfolding register register_unless artifact_row
    register_again s s' path path' canonical db db' a h file p same =
        let (c, q, k) = register-registered s path db db' a h in
        let row = artifact_row (to_string_lossy a.path) a in
        let found : find_row (has_path (to_string_lossy canonical)) (rows db') ≡ some row =
          ap (find_row (has_path (to_string_lossy canonical))) k.in_table.0
          ∙ find_row-first (has_path (to_string_lossy canonical)) row (rows db) (
              ap (text_eq (to_string_lossy a.path)) same ∙ text_eq_refl (to_string_lossy a.path)) in
        elim (find_by_path-row (to_string_lossy canonical) db' row found) [
          | inl e ↦ inl (rw (file, p, e) refl)
          | inr (x, e) ↦ inr (x, rw (file, p, e) refl)
        ]

    -- An artifact whose file is as it was is not reported as changed: if the fingerprint that is
    -- observed at the artifact's path is the one that `register` observed, with a size and a
    -- modification time that the table can hold, then `check` answers unchanged, or that the
    -- database failed.
    pub check_unchanged :
        (s : Answers) (path : Text) (db db' : Db) (a : ModelArtifact)
        (observe : Text → Result ArtifactFingerprint Text)
        → register database f32_text f64_text is_utf8 to_string_lossy s path db
          ≡ ok (registered a, db')
        → observe (to_string_lossy a.path) ≡ s.observed
        → a.size_bytes ≤ i64_max
        → IsRemembered a.fingerprint.modified_at
        → (check database observe a.id db' ≡ ok unchanged)
          ⊎ ((e : Text) × (check database observe a.id db' ≡ err (storage e)))
    unfolding check artifact_row row_to_artifact
    check_unchanged s path db db' a observe h seen fits remembered =
        let (c, q, k) = register-registered s path db db' a h in
        let row = artifact_row (to_string_lossy a.path) a in
        let found : find_row (has_id a.id) (rows db') ≡ some row =
          ap (find_row (has_id a.id)) k.in_table.0
          ∙ find_row-first (has_id a.id) row (rows db) (text_eq_refl a.id) in
        elim (get-row a.id db' row found) [
          | inl e ↦ inl (
              rw e (
                ap (λ o. ok (detect_drift o (row_to_artifact row))) (seen ∙ k.as_observed)
                ∙ ap ok (detect_drift-row (to_string_lossy a.path) a k.same_size fits remembered)))
          | inr (x, e) ↦ inr (x, rw e refl)
        ]
