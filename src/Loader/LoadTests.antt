-- ===== src/Loader/LoadTests.antt =====
-- A load on the small system, from a registry of one artifact.
use mehoy_malloy_ai_runtime.Common.{
  ◌≡◌, refl, Bool, true, false, none, some, [], ◌∷◌, Result, ok, err,
}
use mehoy_malloy_ai_runtime.Common.Text.{Text}
use mehoy_malloy_ai_runtime.Registry.{
  gguf, since_epoch, ArtifactFingerprint, ArtifactMetadata, unverified, ModelArtifact,
}
use mehoy_malloy_ai_runtime.Registry.Store.{artifact_row}
use mehoy_malloy_ai_runtime.Registry.Operations.{Database}
use mehoy_malloy_ai_runtime.Worker.{can_transition_to}
use mehoy_malloy_ai_runtime.Worker.Process.Toy.{short_deadlines}
use mehoy_malloy_ai_runtime.Backend.Tests.{around, llama}
use mehoy_malloy_ai_runtime.Loader.Loading.{CommitAnswers, load_model}
use mehoy_malloy_ai_runtime.Loader.Loads.{LoadEnds, load_model-LoadEnds}

abbrev observed : ArtifactFingerprint
observed = record { size_bytes = 24; modified_at = some (since_epoch 5_000_000_007) }

abbrev facts : ArtifactMetadata
facts = record {
  container_version = 3;
  tensor_count = 0;
  metadata_count = 0;
  architecture = some (b'l' ∷ []);
  name = none;
  file_type = none;
  context_length = none;
  embedding_length = none;
  tokenizer_model = none;
  chat_template = some (b'{' ∷ []);
}

abbrev model : ModelArtifact
model = record {
  id = b'a' ∷ b'0' ∷ [];
  path = b'/' ∷ b'm' ∷ [];
  format = gguf;
  size_bytes = 24;
  metadata = facts;
  integrity = unverified;
  fingerprint = observed;
  registered_at = since_epoch 2_000_000_000;
}

abbrev failing : Text
failing = b'E' ∷ []

-- A database that can only be read, with the one row.
abbrev one_row : Database (Unit {0})
one_row = record {
  begins = λ db. err failing;
  insert_row = λ row db. err failing;
  put_entry = λ id key value db. err failing;
  commits = λ db. err failing;
  select_id = λ id db. ok (some (artifact_row model.path model));
  select_path = λ path db. err failing;
  select_all = λ db. err failing;
  select_entries = λ id db. err failing;
  update_integrity = λ state algorithm digest id db. err failing;
  delete_row = λ id db. err failing;
}

abbrev numbered : CommitAnswers
numbered = record { injected = false; instance_id = ok 77 }

load_model-LoadEnds_example :
    LoadEnds one_row
      (λ path. ok observed)
      (around 200)
      model.id
      tt
      (load_model one_row
        (λ path. ok observed)
        (around 200)
        numbered
        llama
        model.id
        5
        short_deadlines
        tt)
load_model-LoadEnds_example =
    load_model-LoadEnds one_row (λ path. ok observed) (around 200) model.id tt numbered llama 5
      short_deadlines

abbrev gives_model {ℓ κ} : {A : Type ℓ} {E : Type κ} → Result A E → Bool
gives_model (ok a) = true
gives_model (err e) = false

loads :
    gives_model
      (load_model one_row
        (λ path. ok observed)
        (around 200)
        numbered
        llama
        model.id
        5
        short_deadlines
        tt).answer
    ≡ true
unfolding load_model artifact_row can_transition_to
loads = refl
