-- ===== src/Compatibility.antt =====
-- crates/mehoy-backend-llama/src/compatibility.rs: whether the backend may be started for an
-- artifact, and in which mode. The text of a reason is the case that it words.
mod Tests
use mehoy_malloy_ai_runtime.Common.Text.{
  Text, text_eq, text_eq→eq, text_eq_refl, contains, contains-split, contains-append,
}
use mehoy_malloy_ai_runtime.Capability.{bert}
use mehoy_malloy_ai_runtime.Common.{
  ℕ, ◌≡◌, refl, sym, ap, ◌∙◌, ◌≢◌, ◌↔◌, inl, inr, Bool, true, false, not, ◌&&◌, Option, none, some,
  [], ◌∷◌, ◌++◌, arith, if◌then◌else◌, Bool-cases, Option-cases, is_some,
}

pub record ModelDescriptor : Type 0 where
  pub architecture : Option Text
  pub context_length : Option ℕ
  pub embedding_length : Option ℕ
  pub tokenizer_model : Option Text
  pub has_chat_template : Bool

pub data Reason : Type 0 where
  no_architecture : Reason
  companion_projector no_tokenizer backend_decides : (architecture : Text) → Reason

pub data Compatibility : Type 0 where
  supported : Compatibility
  unsupported undetermined : (reason : Reason) → Compatibility

unfoldable pub permits_start : Compatibility → Bool
permits_start (unsupported reason) = false
permits_start _ = true

pub data LaunchMode : Type 0 where
  general embedding : LaunchMode

abbrev pub clip : Text
clip = b'c' ∷ b'l' ∷ b'i' ∷ b'p' ∷ []

-- `EMBEDDING_ORIENTED` has the one family `bert`.
abbrev pub embedding_oriented : Option Text → Bool
embedding_oriented none = false
embedding_oriented (some architecture) = contains bert architecture

unfoldable pub launch_mode : ModelDescriptor → LaunchMode
launch_mode d =
    if embedding_oriented d.architecture && not d.has_chat_template then embedding else general

-- `NOT_STANDALONE` has the one name `clip`.
unfoldable pub assess : ModelDescriptor → Compatibility
assess d = elim d.architecture [
  | none ↦ undetermined no_architecture
  | some architecture ↦
      if text_eq clip architecture
      then unsupported (companion_projector architecture)
      else if is_some d.tokenizer_model
      then undetermined (backend_decides architecture)
      else undetermined (no_tokenizer architecture)
]

-- A start is refused exactly for an artifact whose architecture is `clip`; the code never claims
-- that an artifact is supported.
pub assess_lem :
    (d : ModelDescriptor)
    → ((permits_start (assess d) ≡ false) ↔ (d.architecture ≡ some clip)) × (assess d ≢ supported)
unfolding assess permits_start
assess_lem d = elim (Option-cases d.architecture) [
  | inl e ↦ rw (e, assess) ((λ h. cc, λ h. cc), λ h. cc)
  | inr (a, e) ↦ elim (Bool-cases (text_eq clip a)) [
    | inl same ↦
        rw (e, assess) (rw same ((λ h. ap some (sym (text_eq→eq clip a same)), λ h. refl), λ h. cc))
    | inr other ↦
        rw (e, assess)
          (rw other (elim (Bool-cases (is_some d.tokenizer_model)) [
            | inl k ↦ rw k ((λ h. cc, λ h. absurd (differs a other h)), λ h. cc)
            | inr k ↦ rw k ((λ h. cc, λ h. absurd (differs a other h)), λ h. cc)
          ]))
  ]
]
  where
    differs : (a : Text) → text_eq clip a ≡ false → ◌≡◌ {A = Option Text} (some a) (some clip) → ⊥
    differs a other h = let e : a ≡ clip = cc in cc (text_eq_refl clip, ap (text_eq clip) e)

-- The backend is started for embeddings exactly for an artifact with no chat template whose
-- architecture is named by a text in which `bert` stands somewhere.
pub launch_mode_iff :
    (d : ModelDescriptor)
    → (launch_mode d ≡ embedding) ↔ (
        (before : Text) × (after : Text) × (d.architecture ≡ some (before ++ (bert ++ after)))
        × (d.has_chat_template ≡ false))
unfolding launch_mode
launch_mode_iff d = (forth, back)
  where
    forth :
        launch_mode d ≡ embedding
        → (before : Text) × (after : Text) × (d.architecture ≡ some (before ++ (bert ++ after)))
          × (d.has_chat_template ≡ false)
    forth h = elim (Option-cases d.architecture) [
      | inl e ↦ absurd (ground arith)
      | inr (a, e) ↦
          let both : (contains bert a ≡ true) × (d.has_chat_template ≡ false) = ground arith in
          let (before, after, split) = contains-split bert a both.0 in
          (before, after, e ∙ ap some split, both.1)
    ]

    back :
        (before : Text) × (after : Text) × (d.architecture ≡ some (before ++ (bert ++ after)))
          × (d.has_chat_template ≡ false)
        → launch_mode d ≡ embedding
    back (before, after, e, t) = rw (e, launch_mode, contains-append before bert after, t)
