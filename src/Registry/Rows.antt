-- ===== src/Registry/Rows.antt =====
-- store.rs: what a row keeps of an artifact.
use mehoy_malloy_ai_runtime.Common.{ℕ, ◌*◌, ◌/◌, ◌≤◌, ◌≡◌, refl, ap, Option, none, some}
use mehoy_malloy_ai_runtime.Common.Text.{Text}
use mehoy_malloy_ai_runtime.Registry.{
  ArtifactFormat, gguf, format_text, format_from_stored, SystemTime, since_epoch, before_epoch,
  unverified, ModelArtifact,
}
use mehoy_malloy_ai_runtime.Registry.Store.{
  row_to_artifact, artifact_row, mapped, integrity_of, i64_max, to_signed, from_signed,
  nanos_per_second, or_gguf, from_epoch_nanos, to_epoch_nanos, from_epoch, to_epoch,
}
use mehoy_malloy_ai_runtime.Registry.Laws.{IsRemembered, saturated_lem}

abbrev pub FitsOption : Option ℕ → Type 0
FitsOption none = Unit {0}
FitsOption (some n) = n ≤ i64_max

-- An artifact whose numbers and times a row can hold: its numbers fit the signed 64 bits of a column,
-- its modification time is from the epoch on and fits them as nanoseconds, and it was registered the
-- given nanoseconds behind the epoch, which fit them as seconds.
pub record IsStorable (a : ModelArtifact) (nanos : ℕ) : Type 0 where
  pub size : a.size_bytes ≤ i64_max
  pub tensors : a.metadata.tensor_count ≤ i64_max
  pub entries : a.metadata.metadata_count ≤ i64_max
  pub file_type : FitsOption a.metadata.file_type
  pub context_length : FitsOption a.metadata.context_length
  pub embedding_length : FitsOption a.metadata.embedding_length
  pub remembered : IsRemembered a.fingerprint.modified_at
  pub registered : a.registered_at ≡ since_epoch nanos
  pub early : nanos / nanos_per_second ≤ i64_max

fits_option : (o : Option ℕ) → FitsOption o → mapped from_signed (mapped to_signed o) ≡ o
fits_option none h = refl
fits_option (some n) h = ap some (saturated_lem n h)

remembered_option :
    (t : Option SystemTime) → IsRemembered t → mapped from_epoch_nanos (mapped to_epoch_nanos t) ≡ t
remembered_option none h = refl
remembered_option (some (since_epoch n)) h = ap (λ m. some (since_epoch m)) (saturated_lem n h)
remembered_option (some (before_epoch n)) h = absurd h

format_kept : (f : ArtifactFormat) → or_gguf (format_from_stored (format_text f)) ≡ f
unfolding format_from_stored
format_kept gguf = refl

-- The time that a row gives back: the second in which it lies.
abbrev pub whole_second : ℕ → SystemTime
whole_second nanos = since_epoch ((nanos / nanos_per_second) * nanos_per_second)

second_kept :
    (nanos : ℕ)
    → nanos / nanos_per_second ≤ i64_max
    → from_epoch (to_epoch (since_epoch nanos)) ≡ whole_second nanos
second_kept nanos h =
    ap (λ n. since_epoch (n * nanos_per_second)) (saturated_lem (nanos / nanos_per_second) h)

-- What a row keeps of an artifact: reading back the row that is written for an artifact under the
-- text of its path, where the table can hold its numbers and times, gives the artifact with this
-- text for a path, registered at the whole second in which it was, not verified, and with the size of
-- the artifact as the size of its fingerprint; nothing else is lost.
pub row_to_artifact-artifact_row :
    (text : Text) (a : ModelArtifact) (nanos : ℕ)
    → IsStorable a nanos
    → row_to_artifact (artifact_row text a) ≡ record a {
      path = text;
      registered_at = whole_second nanos;
      integrity = unverified;
      fingerprint = record a.fingerprint { size_bytes = a.size_bytes };
    }
unfolding row_to_artifact artifact_row integrity_of
row_to_artifact-artifact_row text a nanos k =
    rw
      (
        format_kept a.format,
        saturated_lem a.size_bytes k.size,
        saturated_lem a.metadata.tensor_count k.tensors,
        saturated_lem a.metadata.metadata_count k.entries,
        fits_option a.metadata.file_type k.file_type,
        fits_option a.metadata.context_length k.context_length,
        fits_option a.metadata.embedding_length k.embedding_length,
        remembered_option a.fingerprint.modified_at k.remembered,
        k.registered,
        second_kept nanos k.early,
      )
      refl
