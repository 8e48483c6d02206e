-- ===== src/Backend/Identity.antt =====
-- crates/mehoy-backend-llama/src/identity.rs: what a backend's version banner says of it.
use mehoy_malloy_ai_runtime.Common.{
  ℕ, Option, none, some, List, [], ◌∷◌, ◌++◌, ◌==◌, if◌then◌else◌, is_empty,
}
use mehoy_malloy_ai_runtime.Common.Text.{Text}
use mehoy_malloy_ai_runtime.Common.Spaces.{trim}

pub data BackendFamily : Type 0 where
  llama_cpp : BackendFamily

pub record BackendIdentity : Type 0 where
  pub family : BackendFamily
  pub executable : Text
  pub build : Option Text
  pub commit : Option Text
  pub banner : Text

-- The rest behind a prefix.
unfoldable pub strip_prefix : Text → Text → Option Text
strip_prefix [] t = some t
strip_prefix (p ∷ ps) [] = none
strip_prefix (p ∷ ps) (x ∷ xs) = let rest = strip_prefix ps xs in if p == x then rest else none

-- `strip_suffix` of one character of one byte.
unfoldable pub strip_last : ℕ → Text → Option Text
strip_last c [] = none
strip_last c (x ∷ []) = if x == c then some [] else none
strip_last c (x ∷ y ∷ rest) = elim (strip_last c (y ∷ rest)) [
  | none ↦ none
  | some front ↦ some (x ∷ front)
]

-- Before and behind the first space; a text without one is all before it.
unfoldable pub split_space : Text → Text × Text
split_space [] = ([], [])
split_space (x ∷ xs) =
    let (before, behind) = split_space xs in if x == b' ' then ([], xs) else (x ∷ before, behind)

-- `str::lines`: a line ends at a line feed, and a carriage return before that is not of it; behind
-- the last line feed there is no empty line.
abbrev pub without_cr : Text → Text
without_cr t = elim (strip_last 13 t) [ none ↦ t | some front ↦ front ]

unfoldable pub lines_behind : Text → Text → List Text
unfolding strip_last
lines_behind line [] = if is_empty line then [] else line ∷ []
lines_behind line (x ∷ xs) =
    let more = lines_behind [] xs in
    let same = lines_behind (line ++ x ∷ []) xs in if x == 10 then without_cr line ∷ more else same

abbrev pub text_lines : Text → List Text
text_lines t = lines_behind [] t

-- `version:`.
abbrev pub version_word : Text
version_word = b'v' ∷ b'e' ∷ b'r' ∷ b's' ∷ b'i' ∷ b'o' ∷ b'n' ∷ b':' ∷ []

abbrev pub non_empty : Text → Option Text
non_empty t = if is_empty t then none else some t

-- A commit in parentheses.
unfoldable pub commit_of : Text → Option Text
unfolding strip_last
commit_of [] = none
commit_of (x ∷ xs) =
    if x == b'('
    then elim (strip_last b')' xs) [ none ↦ none | some value ↦ non_empty value ]
    else none

-- The build and the commit that the rest of a version line names.
unfoldable pub version_of : Text → Option Text × Option Text
unfolding trim split_space commit_of
version_of rest =
    let (number, remainder) = split_space (trim rest) in
    (non_empty number, commit_of (trim remainder))

-- The loop: the first line that is a version line says it all.
unfoldable pub find_version : List Text → Option Text × Option Text
unfolding trim strip_prefix version_of
find_version [] = (none, none)
find_version (line ∷ lines) =
    let later = find_version lines in
    elim (strip_prefix version_word (trim line)) [ none ↦ later | some rest ↦ version_of rest ]

unfoldable pub parse_banner : Text → Text → BackendIdentity
unfolding lines_behind find_version trim
parse_banner executable banner =
    let (build, commit) = find_version (text_lines banner) in
    record {
      family = llama_cpp;
      executable = executable;
      build = build;
      commit = commit;
      banner = trim banner;
    }
