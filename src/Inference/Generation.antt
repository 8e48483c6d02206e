-- ===== src/Inference/Generation.antt =====
-- inference.rs, lines 281 to 523: the input and the parameters of a generation, its result, and the
-- checks on both. Texts are bytes, a temperature the bits of an `f32`, and the text of a reason is
-- the case that it words.
mod Tests
use mehoy_malloy_ai_runtime.Common.Text.{Text}
use mehoy_malloy_ai_runtime.Inference.Float.{is_finite, is_negative}
use mehoy_malloy_ai_runtime.Common.{
  ℕ, ◌≤◌, ◌<◌, ◌≡◌, refl, sym, ap, ◌∙◌, ◌≢◌, ◌↔◌, inl, inr, Bool, true, false, not, Option, none,
  some, List, [], ◌∷◌, arith, ltb, ◌==◌, if◌then◌else◌, Result, ok, err, Result-cases, ◌>>=◌,
  length, is_empty, All,
}

pub data TextInput : Type 0 where
  continuation : Text → TextInput

abbrev pub max_stop_sequences : ℕ
max_stop_sequences = 8

abbrev pub max_stop_sequence_bytes : ℕ
max_stop_sequence_bytes = 256

pub record GenerationParameters : Type 0 where
  pub max_output_tokens : Option ℕ
  pub temperature : Option ℕ
  pub seed : Option ℕ
  pub stop : List Text

pub data InvalidGenerationParameter : Type 0 where
  temperature_not_finite temperature_negative no_output_tokens empty_stop :
      InvalidGenerationParameter
  too_many_stops stop_too_long : ℕ → InvalidGenerationParameter

abbrev pub check_temperature : Option ℕ → Result (Unit {0}) InvalidGenerationParameter
check_temperature none = ok tt
check_temperature (some bits) =
    if not (is_finite bits)
    then err temperature_not_finite
    else if is_negative bits
    then err temperature_negative
    else ok tt

abbrev pub check_tokens : Option ℕ → Result (Unit {0}) InvalidGenerationParameter
check_tokens none = ok tt
check_tokens (some n) = if n == 0 then err no_output_tokens else ok tt

abbrev pub check_stop : Text → Result (Unit {0}) InvalidGenerationParameter
check_stop sequence =
    if is_empty sequence
    then err empty_stop
    else if ltb max_stop_sequence_bytes (length sequence)
    then err (stop_too_long (length sequence))
    else ok tt

-- The loop over the stop sequences ends at the first bad one.
abbrev pub check_stops : List Text → Result (Unit {0}) InvalidGenerationParameter
check_stops [] = ok tt
check_stops (sequence ∷ rest) = do _ ← check_stop sequence; check_stops rest

unfoldable pub validate_parameters :
    GenerationParameters → Result (Unit {0}) InvalidGenerationParameter
validate_parameters p = do
  _ ← check_temperature p.temperature
  _ ← check_tokens p.max_output_tokens
  (if ltb max_stop_sequences (length p.stop)
      then err (too_many_stops (length p.stop))
      else check_stops p.stop)

pub record GenerateTextRequest : Type 0 where
  pub input : TextInput
  pub parameters : GenerationParameters

pub data FinishReason : Type 0 where
  stop length_reached : FinishReason
  other : Text → FinishReason

pub record GenerationUsage : Type 0 where
  pub input_tokens : ℕ
  pub output_tokens : ℕ

pub record GenerationResult : Type 0 where
  pub text : Text
  pub finish_reason : FinishReason
  pub usage : Option GenerationUsage

pub data GenerationDefect : Type 0 where
  no_content implausible_usage : GenerationDefect

abbrev pub reports_no_output : Option GenerationUsage → Bool
reports_no_output none = false
reports_no_output (some usage) = usage.output_tokens == 0

unfoldable pub validate_generation : GenerationResult → Result (Unit {0}) GenerationDefect
validate_generation r =
    if is_empty r.text
    then err no_content
    else if reports_no_output r.usage
    then err implausible_usage
    else ok tt

-- A stop sequence that may be sent: not empty, and at most 256 bytes.
abbrev pub IsStop : Text → Type 0
IsStop sequence = (0 < length sequence) × (length sequence ≤ 256)

-- The parameters that a backend may be sent.
pub record AreValid (p : GenerationParameters) : Type 0 where
  pub warm :
      (bits : ℕ) → p.temperature ≡ some bits → (is_finite bits ≡ true) × (is_negative bits ≡ false)
  pub some_output : p.max_output_tokens ≢ some 0
  pub few : length p.stop ≤ 8
  pub stops : All IsStop p.stop

check_stop_lem : (t : Text) → (check_stop t ≡ ok tt) ↔ IsStop t
check_stop_lem [] = (λ h. cc, λ h. absurd (omega arith))
check_stop_lem (b ∷ t) = (λ h. ground arith, λ h. ground arith)

check_stops_lem : (ts : List Text) → (check_stops ts ≡ ok tt) ↔ All IsStop ts
check_stops_lem [] = (λ h. tt, λ h. refl)
check_stops_lem (t ∷ ts) = elim (Result-cases (check_stop t)) [
  | inl (_, c) ↦
      let good = (check_stop_lem t).0 c in
      (λ h. (good, (check_stops_lem ts).0 (rw c at h)), λ h. rw c ((check_stops_lem ts).1 h.1))
  | inr (d, c) ↦ (λ h. absurd (ground arith), λ h. cc (c, (check_stop_lem t).1 h.0))
]

check_temperature_lem :
    (t : Option ℕ)
    → (check_temperature t ≡ ok tt)
      ↔ ((bits : ℕ) → t ≡ some bits → (is_finite bits ≡ true) × (is_negative bits ≡ false))
check_temperature_lem none = (λ h bits e. cc, λ h. refl)
check_temperature_lem (some b) = (
  λ h bits e.
      let good : (is_finite b ≡ true) × (is_negative b ≡ false) = ground arith in
      let same : b ≡ bits = cc in
      (ap is_finite (sym same) ∙ good.0, ap is_negative (sym same) ∙ good.1),
  λ h. let good = h b refl in ground (arith, good.0, good.1),
)

check_tokens_lem : (n : Option ℕ) → (check_tokens n ≡ ok tt) ↔ (n ≢ some 0)
check_tokens_lem none = (λ h e. cc, λ h. refl)
check_tokens_lem (some n) = (λ h e. ground arith, λ h. ground (arith, λ (e : n ≡ 0). h (ap some e)))

-- Parameters are accepted exactly when the temperature, if given, is finite and not negative, a
-- token limit is not zero, and the stop sequences number at most 8, none empty or over 256 bytes.
pub validate_parameters_iff :
    (p : GenerationParameters) → (validate_parameters p ≡ ok tt) ↔ AreValid p
unfolding validate_parameters
validate_parameters_iff p = (forth, back)
  where
    forth : validate_parameters p ≡ ok tt → AreValid p
    forth h = elim (Result-cases (check_temperature p.temperature)) [
      | inr (d, a) ↦ absurd (ground arith)
      | inl (_, a) ↦ elim (Result-cases (check_tokens p.max_output_tokens)) [
        | inr (d, b) ↦ absurd (ground arith)
        | inl (_, b) ↦
            let rest : (length p.stop ≤ 8) × (check_stops p.stop ≡ ok tt) = ground arith in
            record {
              warm = (check_temperature_lem p.temperature).0 a;
              some_output = (check_tokens_lem p.max_output_tokens).0 b;
              few = rest.0;
              stops = (check_stops_lem p.stop).0 rest.1;
            }
      ]
    ]

    back : AreValid p → validate_parameters p ≡ ok tt
    back v = rw ((check_temperature_lem p.temperature).1 v.warm) (
        rw ((check_tokens_lem p.max_output_tokens).1 v.some_output)
          (ground (arith, v.few, (check_stops_lem p.stop).1 v.stops)))

-- No usage is reported, or one with a token of output.
abbrev pub IsPlausible : Option GenerationUsage → Type 0
IsPlausible none = Unit {0}
IsPlausible (some usage) = 0 < usage.output_tokens

check_usage_lem : (u : Option GenerationUsage) → (reports_no_output u ≡ false) ↔ IsPlausible u
check_usage_lem none = (λ h. tt, λ h. refl)
check_usage_lem (some usage) = (λ h. ground arith, λ h. ground arith)

-- A whole response is accepted exactly when it has text and any token count reported for it is
-- not zero.
pub validate_generation_iff :
    (r : GenerationResult) → (validate_generation r ≡ ok tt) ↔ ((r.text ≢ []) × IsPlausible r.usage)
unfolding validate_generation
validate_generation_iff r = (forth, back)
  where
    forth : validate_generation r ≡ ok tt → (r.text ≢ []) × IsPlausible r.usage
    forth h = (λ e. ground arith, (check_usage_lem r.usage).0 (ground arith))

    back : (r.text ≢ []) × IsPlausible r.usage → validate_generation r ≡ ok tt
    back (t, u) = let none_missing = (check_usage_lem r.usage).1 u in ground arith
