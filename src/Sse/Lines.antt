-- ===== src/Sse/Lines.antt =====
-- sse.rs: what `take_line` finds, in a buffer and in a longer one.
use mehoy_malloy_ai_runtime.Common.{
  ℕ, ◌≤◌, ◌<◌, ◌≡◌, refl, ap, ◌+◌, inl, inr, true, false, Option, none, some, [], ◌∷◌, ◌++◌, arith,
  ◌==◌, Bool-cases, length,
}
use mehoy_malloy_ai_runtime.Common.Text.{Text}
use mehoy_malloy_ai_runtime.Sse.{take_line, after_return, longer}

take_line-empty : take_line [] ≡ none
unfolding take_line
take_line-empty = refl

left_is :
    (line left b : Text)
    → ◌≡◌ {A = Option (Text × Text)} (some ([], b)) (some (line, left))
    → b ≡ left
left_is line left b h = cc

pub take_line-newline : (x : ℕ) (b : Text) → (x == 10) ≡ true → take_line (x ∷ b) ≡ some ([], b)
unfolding take_line
take_line-newline x b n = rw n refl

take_line-return :
    (x : ℕ) (b : Text) → (x == 10) ≡ false → (x == 13) ≡ true → take_line (x ∷ b) ≡ after_return b
unfolding take_line
take_line-return x b n r = rw (n, r) refl

pub take_line-other :
    (x : ℕ) (b : Text)
    → (x == 10) ≡ false
    → (x == 13) ≡ false
    → take_line (x ∷ b) ≡ longer x (take_line b)
unfolding take_line
take_line-other x b n r = rw (n, r) refl

after_return-append :
    (b more line left : Text)
    → after_return b ≡ some (line, left)
    → after_return (b ++ more) ≡ some (line, left ++ more)
after_return-append [] more line left h = cc
after_return-append (y ∷ b) more line left h = elim (Bool-cases (y == 10)) [
  | inl e ↦ rw e (cc (rw e at h))
  | inr e ↦ rw e (cc (rw e at h))
]

longer-some :
    (x : ℕ) (o : Option (Text × Text)) (line left : Text)
    → longer x o ≡ some (line, left)
    → (rest : Text) × (o ≡ some (rest, left)) × (line ≡ x ∷ rest)
longer-some x none line left h = cc
longer-some x (some (l, r)) line left h = (l, cc, cc)

-- What is found in the buffer is found in a longer one.
pub take_line-append :
    (b more line left : Text)
    → take_line b ≡ some (line, left)
    → take_line (b ++ more) ≡ some (line, left ++ more)
take_line-append [] more line left h = cc (take_line-empty, h)
take_line-append (x ∷ b) more line left h = elim (Bool-cases (x == 10)) [
  | inl n ↦ rw (take_line-newline x (b ++ more) n) (cc (rw (take_line-newline x b n) at h))
  | inr n ↦ elim (Bool-cases (x == 13)) [
    | inl r ↦
        rw (take_line-return x (b ++ more) n r)
          (after_return-append b more line left (rw (take_line-return x b n r) at h))
    | inr r ↦
        let (rest, e, f) =
          longer-some x (take_line b) line left (rw (take_line-other x b n r) at h) in
        rw (take_line-other x (b ++ more) n r, take_line-append b more rest left e, f) refl
  ]
]

after_return-length :
    (b line left : Text) → after_return b ≡ some (line, left) → length left ≤ length b
after_return-length [] line left h = cc
after_return-length (y ∷ b) line left h = elim (Bool-cases (y == 10)) [
  | inl e ↦ let k = ap length (left_is line left b (rw e at h)) in omega arith
  | inr e ↦ let k = ap length (left_is line left (y ∷ b) (rw e at h)) in omega arith
]

pub take_line-length :
    (b line left : Text) → take_line b ≡ some (line, left) → length left < length b
take_line-length [] line left h = cc (take_line-empty, h)
take_line-length (x ∷ b) line left h = elim (Bool-cases (x == 10)) [
  | inl n ↦
      let k = ap length (left_is line left b (rw (take_line-newline x b n) at h)) in omega arith
  | inr n ↦ elim (Bool-cases (x == 13)) [
    | inl r ↦
        let k = after_return-length b line left (rw (take_line-return x b n r) at h) in omega arith
    | inr r ↦
        let (rest, e, f) =
          longer-some x (take_line b) line left (rw (take_line-other x b n r) at h) in
        let k = take_line-length b rest left e in omega arith
  ]
]

line_is :
    (line left b : Text)
    → ◌≡◌ {A = Option (Text × Text)} (some ([], b)) (some (line, left))
    → [] ≡ line
line_is line left b h = cc

after_return-parts :
    (b line left : Text) → after_return b ≡ some (line, left) → length line + length left ≤ length b
after_return-parts [] line left h = cc
after_return-parts (y ∷ b) line left h =
    let e : [] ≡ line = cc in
    let k = ap length e in let l = after_return-length (y ∷ b) line left h in omega arith

-- A line and what is left are together shorter than the buffer, by the line ending at least.
pub take_line-parts :
    (b line left : Text) → take_line b ≡ some (line, left) → length line + length left < length b
take_line-parts [] line left h = cc (take_line-empty, h)
take_line-parts (x ∷ b) line left h = elim (Bool-cases (x == 10)) [
  | inl n ↦
      let g = rw (take_line-newline x b n) at h in
      let k = ap length (left_is line left b g) in
      let l = ap length (line_is line left b g) in omega arith
  | inr n ↦ elim (Bool-cases (x == 13)) [
    | inl r ↦
        let k = after_return-parts b line left (rw (take_line-return x b n r) at h) in omega arith
    | inr r ↦
        let (rest, e, f) =
          longer-some x (take_line b) line left (rw (take_line-other x b n r) at h) in
        let k = take_line-parts b rest left e in let l = ap length f in omega arith
  ]
]
