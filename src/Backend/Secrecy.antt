-- ===== src/Backend/Secrecy.antt =====
-- channel.rs: where a credential is written, and how many there are.
use mehoy_malloy_ai_runtime.Common.{
  ℕ, ◌<◌, ◌-◌, ◌+◌, ◌*◌, ◌/◌, ◌%◌, ◌≡◌, refl, sym, ap, ◌∙◌, ◌⊎◌, Bool, true, false, List, [], ◌∷◌,
  ◌++◌, arith, ltb, if◌then◌else◌, Result, ok, err, All, length,
}
use mehoy_malloy_ai_runtime.Common.Text.{Text}
use mehoy_malloy_ai_runtime.Registry.{encode_hex, hex_digit}
use mehoy_malloy_ai_runtime.Backend.Channel.{
  ChannelSecret, ChannelError, generate_secret, FileMetadata, Found, not_found, found, FileEffect,
  ensured_directory, opened_file, wrote, wrote_part, Filed, SecretFile, FileAnswers,
}

abbrev writes : List FileEffect → Bool
writes [] = false
writes (wrote path content ∷ effects) = true
writes (wrote_part path ∷ effects) = true
writes (effect ∷ effects) = writes effects

-- A directory that was found so that only its owner, the user of this process, can enter it; or one
-- that was not found, and whose creation with the mode of its owner alone was asked for and succeeded.
abbrev pub HasPrivate : ℕ → Text → Found → List FileEffect → Type 0
HasPrivate euid dir found_there before =
    ((meta : FileMetadata) × (found_there ≡ found meta)
      × (meta.is_symlink ≡ false)
      × (meta.is_dir ≡ true)
      × (meta.uid ≡ euid)
      × (meta.mode % 64 ≡ 0)
      × (before ≡ []))
    ⊎ ((found_there ≡ not_found) × (before ≡ ensured_directory dir 0o700 ∷ []))

-- How the check of a directory ends: with nothing written, and a private directory if it is `ok`.
abbrev IsEnsured : ℕ → Text → Found → Filed (Unit {0}) → Type 0
IsEnsured euid dir there (effects, answer) =
    (writes effects ≡ false) × (answer ≡ ok tt → HasPrivate euid dir there effects)

-- What making a secret file does to the file system.
abbrev pub WritesPrivately : FileAnswers → Text → ChannelSecret → Filed SecretFile → Type 0
WritesPrivately s dir secret r =
    (writes r.0 ≡ false)
    ⊎ ((before : List FileEffect) × (path : Text) × (write : FileEffect) × HasPrivate s.euid dir
          s.directory before
        × (s.occupied path ≡ false)
        × (r.0
            ≡ before
              ++ (opened_file path (record { write = true; create_new = true; mode = 0o600 })
                  ∷ write
                  ∷ []))
        × ((write ≡ wrote path secret.text)
            ⊎ ((write ≡ wrote_part path) × ((e : ChannelError) × (r.1 ≡ err e))))
        × ((f : SecretFile) → r.1 ≡ ok f → f.path ≡ path))

-- What a hexadecimal digit stands for.
abbrev pub digit_of : ℕ → ℕ
digit_of x = if ltb x 58 then x - 48 else x - 87

-- The bytes that pairs of digits spell.
abbrev pub decode_hex : Text → Text
decode_hex [] = []
decode_hex (x ∷ []) = []
decode_hex (x ∷ y ∷ rest) = (digit_of x * 16 + digit_of y) ∷ decode_hex rest

hex_digit_lem : (n : ℕ) → n < 16 → digit_of (hex_digit n) ≡ n
hex_digit_lem n lt = ground arith

abbrev pub IsByte : ℕ → Type 0
IsByte b = b < 256

decode-encode : (bytes : Text) → All IsByte bytes → decode_hex (encode_hex bytes) ≡ bytes
unfolding encode_hex
decode-encode [] all = refl
decode-encode (b ∷ bytes) (lt, all) =
    rw
      (
        hex_digit_lem (b / 16) (omega arith),
        hex_digit_lem (b % 16) (omega arith),
        decode-encode bytes all,
      )
      (ap (λ n. n ∷ bytes) (omega arith))

length-encode_hex : (bytes : Text) → length (encode_hex bytes) ≡ 2 * length bytes
unfolding encode_hex
length-encode_hex [] = refl
length-encode_hex (b ∷ bytes) = rw (length-encode_hex bytes) (omega arith)

-- A secret has two digits for each random byte it was made of, and it determines them: bytes that
-- differ never give the same secret, so none of the randomness is lost.
pub generate_secret_lem :
    (bytes : Text) (secret : ChannelSecret)
    → All IsByte bytes
    → generate_secret (ok bytes) ≡ ok secret
    → (length secret.text ≡ 2 * length bytes) × (decode_hex secret.text ≡ bytes)
unfolding generate_secret
generate_secret_lem bytes secret all h =
    let e : encode_hex bytes ≡ secret.text = ap text_of h in
    (ap length (sym e) ∙ length-encode_hex bytes, ap decode_hex (sym e) ∙ decode-encode bytes all)
  where
    text_of : Result ChannelSecret ChannelError → Text
    text_of (ok c) = c.text
    text_of (err e) = []
