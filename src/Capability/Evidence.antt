-- ===== src/Capability/Evidence.antt =====
-- capability.rs: only a demonstration verifies, and nothing takes one back.
use mehoy_malloy_ai_runtime.Common.Text.{Text, contains, contains-split, contains-append}
use mehoy_malloy_ai_runtime.Capability.{
  ModelCapability, text_generation, embeddings, vision, tool_calling, structured_output, position,
  CapabilityEvidence, metadata, unknown, indicated, verified, bert, is_demonstrated, or_unknown,
  ModelCapabilities, state, is_verified, indicate, verify, embedding_hint, indicated_by_metadata,
  Claim, indicates, demonstrates, run,
}
use mehoy_malloy_ai_runtime.Common.{
  ℕ, ◌≡◌, refl, ap, ◌∙◌, ◌↔◌, Bool, true, false, ◌||◌, Option, none, some, List, [], ◌∷◌, ◌++◌,
  arith, ◌==◌, if◌then◌else◌, ==_iff, is_some, lookup, insert, lookup-insert,
}

module _ {B : Type 0} where
  -- Some claim of the list performed the capability.
  abbrev pub demonstrated_in : ModelCapability → List (Claim B) → Bool
  demonstrated_in c [] = false
  demonstrated_in c (indicates d by ∷ cs) = demonstrated_in c cs
  demonstrated_in c (demonstrates now d backend ∷ cs) =
      let later = demonstrated_in c cs in position d == position c || later

  is_verified-indicate :
      (c d : ModelCapability) (by : CapabilityEvidence) (m : ModelCapabilities B)
      → is_verified c (indicate d by m) ≡ is_verified c m
  unfolding is_verified indicate
  is_verified-indicate c d by m = ground (
    arith,
    lookup-insert (position d) (position c)
        (if is_demonstrated (or_unknown (lookup (position d) m.entries))
          then or_unknown (lookup (position d) m.entries)
          else indicated by)
        m.entries,
    ==_iff (position d) (position c),
  )

  is_verified-verify :
      (c d : ModelCapability) (now : ℕ) (backend : Option B) (m : ModelCapabilities B)
      → is_verified c (verify now d backend m) ≡ (position d == position c || is_verified c m)
  unfolding is_verified verify
  is_verified-verify c d now backend m =
      ground (arith, lookup-insert (position d) (position c) (verified now backend) m.entries)

  -- Only a demonstration verifies and nothing takes one back: after any sequence of claims a
  -- capability is verified exactly when it was before or one of the claims demonstrated it.
  pub is_verified-run :
      (c : ModelCapability) (cs : List (Claim B)) (m : ModelCapabilities B)
      → is_verified c (run cs m) ≡ (demonstrated_in c cs || is_verified c m)
  unfolding run
  is_verified-run c [] m = refl
  is_verified-run c (indicates d by ∷ cs) m =
      is_verified-run c cs (indicate d by m) ∙ rw (is_verified-indicate c d by m)
  is_verified-run c (demonstrates now d backend ∷ cs) m =
      is_verified-run c cs (verify now d backend m)
      ∙ ground (arith, is_verified-verify c d now backend m)

  -- What the metadata of an artifact leaves on record, capability by capability.
  indicated_by_metadata_lem :
      (architecture : Option Text) (embedding_length : Option ℕ) (has_chat_template : Bool)
      → let m = indicated_by_metadata {B = B} architecture embedding_length has_chat_template in
        (state text_generation m ≡ (if has_chat_template then indicated metadata else unknown))
        × (state embeddings m ≡ (
            if embedding_hint architecture embedding_length then indicated metadata else unknown))
        × (state vision m ≡ unknown)
        × (state tool_calling m ≡ unknown)
        × (state structured_output m ≡ unknown)
  unfolding indicated_by_metadata state insert lookup
  indicated_by_metadata_lem architecture embedding_length has_chat_template = ground arith

  -- Metadata indicates embeddings exactly when an embedding length is declared and the architecture
  -- is named by a text in which `bert` stands somewhere.
  pub embeddings_indicated_iff :
      (architecture : Option Text) (embedding_length : Option ℕ) (has_chat_template : Bool)
      → (state embeddings
            (indicated_by_metadata {B = B} architecture embedding_length has_chat_template)
          ≡ indicated metadata)
        ↔ ((before : Text) × (after : Text) × (architecture ≡ some (before ++ (bert ++ after)))
            × (is_some embedding_length ≡ true))
  embeddings_indicated_iff architecture embedding_length has_chat_template =
      (forth architecture, back)
    where
      forth :
          (architecture : Option Text)
          → state embeddings
              (indicated_by_metadata {B = B} architecture embedding_length has_chat_template)
            ≡ indicated metadata
          → (before : Text) × (after : Text) × (architecture ≡ some (before ++ (bert ++ after)))
            × (is_some embedding_length ≡ true)
      forth none e = cc (e, (indicated_by_metadata_lem none embedding_length has_chat_template).1)
      forth (some a) e =
          let l = (indicated_by_metadata_lem (some a) embedding_length has_chat_template).1 in
          let both : (contains bert a ≡ true) × (is_some embedding_length ≡ true) =
            ground (arith, l, e) in
          let (before, after, split) = contains-split bert a both.0 in
          (before, after, ap some split, both.1)

      back :
          (before : Text) × (after : Text) × (architecture ≡ some (before ++ (bert ++ after)))
            × (is_some embedding_length ≡ true)
          → state embeddings
              (indicated_by_metadata {B = B} architecture embedding_length has_chat_template)
            ≡ indicated metadata
      back (before, after, e, l) =
          (indicated_by_metadata_lem architecture embedding_length has_chat_template).1
          ∙ rw (e, embedding_hint, contains-append before bert after, l)

-- The metadata of an artifact verifies no capability, whatever it says.
pub metadata_verifies_nothing :
    (B : Type 0) (c : ModelCapability) (architecture : Option Text) (embedding_length : Option ℕ)
    (has_chat_template : Bool)
    → is_verified c (indicated_by_metadata {B = B} architecture embedding_length has_chat_template)
      ≡ false
unfolding indicated_by_metadata is_verified insert lookup
metadata_verifies_nothing B text_generation architecture embedding_length has_chat_template =
    ground arith
metadata_verifies_nothing B embeddings architecture embedding_length has_chat_template =
    ground arith
metadata_verifies_nothing B _ architecture embedding_length has_chat_template = ground arith

-- Metadata verifies nothing.
pub indicated-not_verified :
    (B : Type 0) (c : ModelCapability) (architecture : Option Text) (embedding_length : Option ℕ)
    (has_chat_template : Bool)
    → is_verified c (indicated_by_metadata {B = B} architecture embedding_length has_chat_template)
      ≡ false
unfolding indicated_by_metadata is_verified state insert lookup
indicated-not_verified B text_generation a e t = ground arith
indicated-not_verified B embeddings a e t = ground arith
indicated-not_verified B vision a e t = ground arith
indicated-not_verified B tool_calling a e t = ground arith
indicated-not_verified B structured_output a e t = ground arith
