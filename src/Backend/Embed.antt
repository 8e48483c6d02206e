-- ===== src/Backend/Embed.antt =====
-- crates/mehoy-backend-llama/src/embed.rs: an embedding asked of the backend. serde's encoding and
-- parsing are the parameters `encode`, `parse_response` and `parse_error`, and `from_utf8_lossy` is
-- another; what the network does is an argument. The headers of a request are not modelled.
use mehoy_malloy_ai_runtime.Common.{
  ℕ, ◌||◌, Option, none, some, List, [], ◌∷◌, map, ◌==◌, if◌then◌else◌, Result, ok, err, ◌>>=◌,
}
use mehoy_malloy_ai_runtime.Common.Text.{Text, text_eq}
use mehoy_malloy_ai_runtime.Inference.Embedding.{EmbedRequest, Embedding, EmbeddingResult}
use mehoy_malloy_ai_runtime.Inference.Stream.{fixed, figure, quoted, Detail}
use mehoy_malloy_ai_runtime.Generate.{Exchange, is_success, not_supported_kind, WireErrorBody}

pub data EmbedError : Type 0 where
  not_supported malformed_response transport : (detail : Detail) → EmbedError
  unauthorised : (status : ℕ) → EmbedError
  rejected : (status : ℕ) (detail : Text) → EmbedError

pub record WireRequest : Type 0 where
  pub input : List Text

pub record WireEmbedding : Type 0 where
  pub index : ℕ
  pub embedding : List ℕ

pub record WireResponse : Type 0 where
  pub items : List WireEmbedding

unfoldable pub error_text : EmbedError → Detail
error_text (not_supported detail) =
    fixed "the backend does not serve embeddings as started: " ∷ detail
error_text (malformed_response detail) =
    fixed "the backend's embedding response was not usable: " ∷ detail
error_text (transport detail) = fixed "the embedding request failed: " ∷ detail
error_text (unauthorised status) =
    fixed "the backend refused the runtime's credential (" ∷ figure status ∷ fixed ")" ∷ []
error_text (rejected status detail) =
    fixed "the backend rejected the request (" ∷ figure status ∷ fixed "): " ∷ quoted detail ∷ []

abbrev pub carried {ℓ} : {A : Type ℓ} → Result A Text → Result A EmbedError
carried (ok a) = ok a
carried (err e) = err (transport (quoted e ∷ []))

unfoldable pub post : Exchange → Result (ℕ × Text) EmbedError
post x = do
  _ ← carried x.connects
  _ ← carried x.shakes_hands
  _ ← carried x.builds
  status ← carried x.responds
  bytes ← carried x.collects
  ok (status, bytes)

module _ (parse_error : Text → Option WireErrorBody) (from_utf8_lossy : Text → Text) where
  abbrev pub error_body : Text → Text × Text
  error_body bytes = elim (parse_error bytes) [
    | none ↦ (from_utf8_lossy bytes, [])
    | some body ↦ (body.message, body.kind)
  ]

  unfoldable pub classify : ℕ → Text → EmbedError
  unfolding text_eq
  classify status bytes =
      let (message, kind) = error_body bytes in
      if status == 401 || status == 403
      then unauthorised status
      else if status == 501
      then not_supported (quoted message ∷ [])
      else if text_eq kind not_supported_kind
      then not_supported (quoted message ∷ [])
      else rejected status message

abbrev pub as_embedding : WireEmbedding → Embedding
as_embedding item = record { index = item.index; vector = item.embedding }

module _ (encode : WireRequest → Result Text Text)
    (parse_response : Text → Result WireResponse Text) (parse_error : Text → Option WireErrorBody)
    (from_utf8_lossy : Text → Text) where
  abbrev pub encoded : Result Text Text → Result Text EmbedError
  encoded (ok body) = ok body
  encoded (err e) = err (malformed_response (fixed "cannot encode the request: " ∷ quoted e ∷ []))

  abbrev pub understood : Result WireResponse Text → Result WireResponse EmbedError
  understood (ok wire) = ok wire
  understood (err e) = err (malformed_response (quoted e ∷ []))

  abbrev pub in_time : Option Exchange → Result (ℕ × Text) EmbedError
  in_time none = err (transport (fixed "no response within " ∷ figure 60 ∷ fixed "s" ∷ []))
  in_time (some x) = post x

  abbrev pub read_response : ℕ → Text → Result EmbeddingResult EmbedError
  read_response status bytes =
      if is_success status
      then (do
        wire ← understood (parse_response bytes)
        ok (record { embeddings = map as_embedding wire.items }))
      else err (classify parse_error from_utf8_lossy status bytes)

  -- `embed`, given what the exchange of a body gives: nothing where the budget ran out.
  unfoldable pub embed : (Text → Option Exchange) → EmbedRequest → Result EmbeddingResult EmbedError
  unfolding classify post
  embed exchange r = do
    body ← encoded (encode (record { input = r.inputs }))
    (status, bytes) ← in_time (exchange body)
    read_response status bytes
