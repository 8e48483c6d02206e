-- ===== src/Registry/Tests.antt =====
-- A database of lists, a small registry on it, and the theorems at it.
use mehoy_malloy_ai_runtime.Common.{
  ℕ, ◌≡◌, refl, sym, ap, ◌⊎◌, inl, inr, Bool, true, false, not, ◌&&◌, none, some, List, [], ◌∷◌,
  ◌++◌, map, arith, if◌then◌else◌, Option-cases, Result, ok, err, ok-injective, is_some, length,
  replicate, keep_if,
}
use mehoy_malloy_ai_runtime.Common.Text.{Text, text_eq}
use mehoy_malloy_ai_runtime.Gguf.{magic}
use mehoy_malloy_ai_runtime.Registry.{
  gguf, since_epoch, before_epoch, ArtifactFingerprint, unverified, verified, sha256, sha256_word,
  ModelArtifact, ArtifactMetadata, unchanged, changed, time_has_changed, detect_drift,
  digits_before, shown,
}
use mehoy_malloy_ai_runtime.Registry.Store.{
  storage, registered, already_registered, Row, row_to_artifact, artifact_row, verified_word,
}
use mehoy_malloy_ai_runtime.Registry.Operations.{
  Database, Answers, check_file, get, check, verify, forget, register,
}
use mehoy_malloy_ai_runtime.Registry.Table.{has_id, has_path, find_row, with_integrity, IsStore}
use mehoy_malloy_ai_runtime.Registry.Laws.{register_again, check_unchanged}
use mehoy_malloy_ai_runtime.Registry.Integrity.{verify-get}
use mehoy_malloy_ai_runtime.Registry.Rows.{IsStorable, whole_second, row_to_artifact-artifact_row}

abbrev Tables : Type 0
Tables = List Row × List (Text × Text × Text)

abbrev rows_of : Tables → List Row
rows_of (rows, entries) = rows

abbrev is_free : Row → List Row → Bool
is_free row rows =
    not (is_some (find_row (has_id row.id) rows))
    && not (is_some (find_row (has_path row.canonical_path) rows))

abbrev insert_into : Row → Tables → Result Tables Text
insert_into row (rows, entries) =
    if is_free row rows then ok (row ∷ rows, entries) else err (b'U' ∷ [])

abbrev lists : Database Tables
lists = record {
  begins = λ db. ok db;
  insert_row = insert_into;
  put_entry = λ id key value db. ok (db.0, (id, key, value) ∷ db.1);
  commits = λ db. ok db;
  select_id = λ id db. ok (find_row (has_id id) db.0);
  select_path = λ path db. ok (find_row (has_path path) db.0);
  select_all = λ db. ok db.0;
  select_entries = λ id db. ok (map (λ e. (e.1, e.2)) (keep_if (λ e. text_eq e.0 id) db.1));
  update_integrity = λ state algorithm digest id db.
      ok (map (with_integrity state algorithm digest id) db.0, db.1);
  delete_row = λ id db. ok (
    length (keep_if (has_id id) db.0),
    (keep_if (λ row. not (has_id id row)) db.0, keep_if (λ e. not (text_eq e.0 id)) db.1),
  );
}

insert_into-free :
    (row : Row) (db db' : Tables)
    → insert_into row db ≡ ok db'
    → (rows_of db' ≡ row ∷ rows_of db)
      × (find_row (has_id row.id) (rows_of db) ≡ none)
      × (find_row (has_path row.canonical_path) (rows_of db) ≡ none)
insert_into-free row (rows, entries) db' h = elim (Option-cases (find_row (has_id row.id) rows)) [
  | inl e ↦ elim (Option-cases (find_row (has_path row.canonical_path) rows)) [
    | inl f ↦ (sym (ap rows_of (ok-injective (rw (e, f) at h))), e, f)
    | inr (x, f) ↦ cc (rw (e, f) at h)
  ]
  | inr (x, e) ↦ cc (rw e at h)
]

lists-IsStore : IsStore lists rows_of
lists-IsStore = record {
  begun = λ db db' h. ap rows_of (sym (ok-injective h));
  inserted = insert_into-free;
  entry_put = λ id key value db db' h. ap rows_of (sym (ok-injective h));
  commit_kept = λ db db' h. ap rows_of (sym (ok-injective h));
  id_found = λ id db r h. sym (ok-injective h);
  path_found = λ path db r h. sym (ok-injective h);
  updated = λ state algorithm digest id db db' h. ap rows_of (sym (ok-injective h));
  deleted = λ id db db' n h.
      (ap (λ x. rows_of x.1) (sym (ok-injective h)), ap (λ x. x.0) (sym (ok-injective h)));
}

abbrev no_text : ℕ → Text
no_text bits = []

abbrev any_text : Text → Bool
any_text bytes = true

abbrev same : Text → Text
same bytes = bytes

-- A container of version 3 with no tensor and no entry.
abbrev empty_file : Text
empty_file = magic ++ (3 ∷ replicate 19 0)

abbrev path : Text
path = b'/' ∷ b'm' ∷ []

abbrev observed : ArtifactFingerprint
observed = record { size_bytes = 24; modified_at = some (since_epoch 5_000_000_007) }

abbrev place : Answers
place = record {
  is_dir = ok false;
  canonical = ok path;
  opened = ok (empty_file, none);
  observed = ok observed;
  random = ok (0xab ∷ 0x0d ∷ []);
  now = since_epoch 2_000_000_000;
}

abbrev no_facts : ArtifactMetadata
no_facts = record {
  container_version = 3;
  tensor_count = 0;
  metadata_count = 0;
  architecture = none;
  name = none;
  file_type = none;
  context_length = none;
  embedding_length = none;
  tokenizer_model = none;
  chat_template = none;
}

abbrev model : ModelArtifact
model = record {
  id = b'a' ∷ b'b' ∷ b'0' ∷ b'd' ∷ [];
  path = path;
  format = gguf;
  size_bytes = 24;
  metadata = no_facts;
  integrity = unverified;
  fingerprint = observed;
  registered_at = since_epoch 2_000_000_000;
}

abbrev nothing : Tables
nothing = ([], [])

abbrev one_row : Tables
one_row = (artifact_row path model ∷ [], [])

first_time :
    register lists no_text no_text any_text same place path nothing ≡ ok (registered model, one_row)
unfolding register find_row
first_time = refl

file_found : check_file path place.is_dir ≡ ok tt
unfolding check_file
file_found = refl

register_again_example :
    (register lists no_text no_text any_text same place path one_row
      ≡ ok (already_registered (row_to_artifact (artifact_row path model)), one_row))
    ⊎ ((e : Text) × (register lists no_text no_text any_text same place path one_row
          ≡ err (storage e)))
register_again_example =
    register_again lists rows_of lists-IsStore no_text no_text any_text same place place path path
      path nothing one_row model first_time file_found refl refl

check_unchanged_example :
    (check lists (λ p. ok observed) model.id one_row ≡ ok unchanged)
    ⊎ ((e : Text) × (check lists (λ p. ok observed) model.id one_row ≡ err (storage e)))
check_unchanged_example =
    check_unchanged lists rows_of lists-IsStore no_text no_text any_text same place path nothing
      one_row model (λ p. ok observed) first_time refl (omega arith) (omega arith)

-- A modification time before the epoch is kept as the epoch: the artifact is reported as changed,
-- though its file is as it was observed when it was registered.
abbrev old : ModelArtifact
old = record model { fingerprint = record { size_bytes = 24; modified_at = some (before_epoch 9) } }

old_file_drifts :
    detect_drift (ok old.fingerprint) (row_to_artifact (artifact_row path old))
    ≡ changed time_has_changed
unfolding detect_drift row_to_artifact artifact_row
old_file_drifts = refl

abbrev hash : Text → Result Text Text
hash p = ok (1 ∷ 2 ∷ [])

abbrev one_verified : Tables
one_verified =
    (map (with_integrity verified_word sha256_word (1 ∷ 2 ∷ []) model.id) (rows_of one_row), [])

verified_once : verify lists hash model.id one_row ≡ ok (verified sha256 (1 ∷ 2 ∷ []), one_verified)
unfolding verify find_row artifact_row
verified_once = refl

verify-get_example :
    (row : Row) × (digest : Text) × (find_row (has_id model.id) (rows_of one_row) ≡ some row)
    × (hash (row_to_artifact row).path ≡ ok digest)
    × (verified sha256 (1 ∷ 2 ∷ []) ≡ verified sha256 digest)
    × ((get lists model.id one_verified
          ≡ ok (some (record (row_to_artifact row) { integrity = verified sha256 (1 ∷ 2 ∷ []) })))
        ⊎ ((e : Text) × (get lists model.id one_verified ≡ err (storage e))))
verify-get_example =
    verify-get lists rows_of lists-IsStore hash model.id one_row one_verified
      (verified sha256 (1 ∷ 2 ∷ [])) verified_once

forgotten_once : forget lists model.id one_row ≡ ok (true, nothing)
unfolding forget artifact_row text_eq
forgotten_once = refl

abbrev recent : ModelArtifact
recent = record model { registered_at = since_epoch 2_000_000_007 }

recent-IsStorable : IsStorable recent 2_000_000_007
recent-IsStorable = record {
  size = omega arith;
  tensors = omega arith;
  entries = omega arith;
  file_type = tt;
  context_length = tt;
  embedding_length = tt;
  remembered = omega arith;
  registered = refl;
  early = omega arith;
}

row_to_artifact-artifact_row_example : row_to_artifact (artifact_row path recent) ≡ record recent {
  path = path;
  registered_at = whole_second 2_000_000_007;
  integrity = unverified;
  fingerprint = record recent.fingerprint { size_bytes = recent.size_bytes };
}
row_to_artifact-artifact_row_example =
    row_to_artifact-artifact_row path recent 2_000_000_007 recent-IsStorable

-- Numbers and hexadecimal digits as the code prints them.
number_shown : shown 1070 ≡ b'1' ∷ b'0' ∷ b'7' ∷ b'0' ∷ []
unfolding digits_before
number_shown = refl
