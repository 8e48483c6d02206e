-- ===== src/Registry/Operations.antt =====
-- store.rs: the methods of the registry, over the interface of its database.
use mehoy_malloy_ai_runtime.Common.{
  ℕ, Bool, true, false, Option, none, some, List, [], ◌∷◌, map, ltb, Result, ok, err, ◌>>=◌,
}
use mehoy_malloy_ai_runtime.Common.Text.{Text}
use mehoy_malloy_ai_runtime.Gguf.{GgufError}
use mehoy_malloy_ai_runtime.Gguf.Header.{GgufHeader, Metadata, parse}
use mehoy_malloy_ai_runtime.Registry.{
  encode_hex, gguf, SystemTime, ArtifactFingerprint, sha256, sha256_word, ArtifactIntegrity,
  unverified, verified, from_header, ModelArtifact, ArtifactState, detect_drift, render_value,
}
use mehoy_malloy_ai_runtime.Registry.Store.{
  RegistryError, not_found, not_a_file, not_an_artifact, unknown_artifact, storage, io,
  Registration, registered, already_registered, Row, verified_word, row_to_artifact, artifact_row,
  mapped,
}

-- The statements that the code makes of its database, each with the text of its error.
pub record Database (Db : Type 0) : Type 0 where
  pub begins : Db → Result Db Text
  pub insert_row : Row → Db → Result Db Text
  pub put_entry : Text → Text → Text → Db → Result Db Text
  pub commits : Db → Result Db Text
  pub select_id : Text → Db → Result (Option Row) Text
  pub select_path : Text → Db → Result (Option Row) Text
  pub select_all : Db → Result (List Row) Text
  pub select_entries : Text → Db → Result (List (Text × Text)) Text
  pub update_integrity : (state algorithm digest id : Text) → Db → Result Db Text
  pub delete_row : Text → Db → Result (ℕ × Db) Text

pub data IoError : Type 0 where
  missing_file : IoError
  failed : Text → IoError

-- What the file system and the system answer during `register`: whether the path is a directory, its
-- canonical form, the bytes of the file there and how reading them ends, the file's fingerprint, the
-- random bytes of an identifier, and the time.
pub record Answers : Type 0 where
  pub is_dir : Result Bool IoError
  pub canonical : Result Text Text
  pub opened : Result (Text × Option Text) Text
  pub observed : Result ArtifactFingerprint Text
  pub random : Result Text Text
  pub now : SystemTime

abbrev pub stored {ℓ} : {A : Type ℓ} → Result A Text → Result A RegistryError
stored (ok a) = ok a
stored (err e) = err (storage e)

abbrev pub read_from {ℓ} : {A : Type ℓ} → Result A Text → Result A RegistryError
read_from (ok a) = ok a
read_from (err e) = err (io e)

abbrev pub as_artifact : Text → Result GgufHeader GgufError → Result GgufHeader RegistryError
as_artifact path (ok header) = ok header
as_artifact path (err source) = err (not_an_artifact path source)

-- A path to register: it exists, and is no directory.
unfoldable pub check_file : Text → Result Bool IoError → Result (Unit {0}) RegistryError
check_file path (err missing_file) = err (not_found path)
check_file path (err (failed e)) = err (io e)
check_file path (ok true) = err (not_a_file path "path is a directory")
check_file path (ok false) = ok tt

abbrev pub known : Text → Option ModelArtifact → Result ModelArtifact RegistryError
known id none = err (unknown_artifact id)
known id (some a) = ok a

-- The artifact of a file that is not yet known.
unfoldable pub new_artifact :
    Text → ArtifactFingerprint → Text → SystemTime → GgufHeader → ModelArtifact
unfolding from_header
new_artifact canonical fingerprint id now header = record {
  id = id;
  path = canonical;
  format = gguf;
  size_bytes = fingerprint.size_bytes;
  metadata = from_header header;
  integrity = unverified;
  fingerprint = fingerprint;
  registered_at = now;
}

module _ {Db : Type 0} (database : Database Db) where
  unfoldable pub get : Text → Db → Result (Option ModelArtifact) RegistryError
  unfolding row_to_artifact
  get id db = do row ← stored (database.select_id id db); ok (mapped row_to_artifact row)

  unfoldable pub find_by_path : Text → Db → Result (Option ModelArtifact) RegistryError
  unfolding row_to_artifact
  find_by_path canonical db = do
    row ← stored (database.select_path canonical db)
    ok (mapped row_to_artifact row)

  unfoldable pub list : Db → Result (List ModelArtifact) RegistryError
  unfolding row_to_artifact
  list db = do rows ← stored (database.select_all db); ok (map row_to_artifact rows)

  unfoldable pub metadata : Text → Db → Result (List (Text × Text)) RegistryError
  metadata id db = stored (database.select_entries id db)

  -- `check`, given what is observed at a path.
  unfoldable pub check :
      (Text → Result ArtifactFingerprint Text) → Text → Db → Result ArtifactState RegistryError
  unfolding get detect_drift
  check observe id db = do
    found ← get id db
    artifact ← known id found
    ok (detect_drift (observe artifact.path) artifact)

  -- `verify`, given the digest of the bytes at a path.
  unfoldable pub verify :
      (Text → Result Text Text) → Text → Db → Result (ArtifactIntegrity × Db) RegistryError
  unfolding get
  verify hash id db = do
    found ← get id db
    artifact ← known id found
    digest ← read_from (hash artifact.path)
    db' ← stored (database.update_integrity verified_word sha256_word digest id db)
    ok (verified sha256 digest, db')

  unfoldable pub forget : Text → Db → Result (Bool × Db) RegistryError
  forget id db = do (removed, db') ← stored (database.delete_row id db); ok (ltb 0 removed, db')

  module _ (f32_text f64_text : ℕ → Text) (is_utf8 : Text → Bool)
      (to_string_lossy : Text → Text) where
    unfoldable pub put_entries : Text → Metadata → Db → Result Db Text
    unfolding render_value
    put_entries id [] db = ok db
    put_entries id ((key, value) ∷ entries) db = do
      db' ← database.put_entry id key (render_value f32_text f64_text value) db
      put_entries id entries db'

    unfoldable pub insert : ModelArtifact → GgufHeader → Db → Result Db RegistryError
    unfolding artifact_row put_entries
    insert artifact header db = stored (do
      begun ← database.begins db
      inserted ← database.insert_row (artifact_row (to_string_lossy artifact.path) artifact) begun
      filled ← put_entries artifact.id header.metadata inserted
      database.commits filled)

    unfoldable pub register_new : Answers → Text → Db → Result (Registration × Db) RegistryError
    unfolding parse new_artifact encode_hex insert
    register_new s canonical db = do
      (bytes, end) ← read_from s.opened
      header ← as_artifact canonical (parse is_utf8 bytes end)
      fingerprint ← read_from s.observed
      random ← read_from s.random
      let artifact = new_artifact canonical fingerprint (encode_hex random) s.now header
      db' ← insert artifact header db
      ok (registered artifact, db')

    -- Behind the look for the canonical path.
    unfoldable pub register_unless :
        Option ModelArtifact → Answers → Text → Db → Result (Registration × Db) RegistryError
    unfolding register_new
    register_unless (some existing) s canonical db = ok (already_registered existing, db)
    register_unless none s canonical db = register_new s canonical db

    unfoldable pub register : Answers → Text → Db → Result (Registration × Db) RegistryError
    unfolding check_file find_by_path register_unless
    register s path db = do
      _ ← check_file path s.is_dir
      canonical ← read_from s.canonical
      existing ← find_by_path (to_string_lossy canonical) db
      register_unless existing s canonical db
