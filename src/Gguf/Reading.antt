-- ===== src/Gguf/Reading.antt =====
-- gguf.rs: what every part of the reader does with its input. It takes the bytes it uses off the
-- front, pays for each from the budget, and does not look at what stands behind them.
use mehoy_malloy_ai_runtime.Common.{
  ℕ, zero, suc, ◌+◌, ◌-◌, ◌≤◌, String, ◌≡◌, refl, sym, ap, ◌∙◌, inl, inr, Bool, true, false, not,
  Option, List, [], ◌∷◌, ◌++◌, arith, ltb, leb, ◌==◌, if◌then◌else◌, leb→le, le→leb, Bool-cases,
  Result, ok, Result-cases, ok-injective, length, take, drop, length-append, take-append-drop,
  length-take,
}
use mathlib.Core.List.{append_assoc}
use mehoy_malloy_ai_runtime.Common.Text.{Text}
use mehoy_malloy_ai_runtime.Gguf.{
  Budgeted, Reader, ◌>>=◌, return, refuse, GgufError, fetch, number, within, from_le_bytes,
  read_string, read_value_with, read_elements, read_array, read_value, MetadataValue, u8, i8, u16,
  i16, u32, i32, u64, i64, f32, f64, boolean, string, nil, cons, max_string_bytes, max_array_len,
  max_array_depth,
}

-- What a successful read means: it took some bytes off the front, paid for each of them, and would
-- have done the same whatever had stood behind them.
abbrev pub Took : {A : Type 0} → Reader A → Budgeted → A → Budgeted → Type 0
Took r s a s' =
    (used : Text) × (s.bytes ≡ used ++ s'.bytes)
    × (length used + s'.remaining ≡ s.remaining)
    × ((behind : Text) (failure : Option Text)
        → r (record { bytes = used ++ behind; failure = failure; remaining = s.remaining })
          ≡ ok (a, record { bytes = behind; failure = failure; remaining = s'.remaining }))

pub record IsReader {A : Type 0} (r : Reader A) : Type 0 where
  pub took : (s : Budgeted) (a : A) (s' : Budgeted) → r s ≡ ok (a, s') → Took r s a s'

pub take_exact {ℓ} : {A : Type ℓ} (n : ℕ) (xs ys : List A) → length xs ≡ n → take n (xs ++ ys) ≡ xs
take_exact zero [] ys h = refl
take_exact zero (x ∷ xs) ys h = absurd (omega arith)
take_exact (suc n) [] ys h = absurd (omega arith)
take_exact (suc n) (x ∷ xs) ys h = rw (take_exact n xs ys (omega arith))

pub drop_exact {ℓ} : {A : Type ℓ} (n : ℕ) (xs ys : List A) → length xs ≡ n → drop n (xs ++ ys) ≡ ys
drop_exact zero [] ys h = refl
drop_exact zero (x ∷ xs) ys h = absurd (omega arith)
drop_exact (suc n) [] ys h = absurd (omega arith)
drop_exact (suc n) (x ∷ xs) ys h = drop_exact n xs ys (omega arith)

pub bind-eq-ok :
    {A B : Type 0} (m : Reader A) (f : A → Reader B) (s s2 : Budgeted) (b : B)
    → (m >>= f) s ≡ ok (b, s2)
    → (a : A) × (s1 : Budgeted) × (m s ≡ ok (a, s1)) × (f a s1 ≡ ok (b, s2))
bind-eq-ok m f s s2 b h = elim (Result-cases (m s)) [
  | inl ((a, s1), e) ↦ (a, s1, e, rw (e, ◌>>=◌) at h)
  | inr (x, e) ↦ cc (rw (e, ◌>>=◌) at h)
]

pub bind_step :
    {A B : Type 0} (m : Reader A) (f : A → Reader B) (s s1 : Budgeted) (a : A)
    → m s ≡ ok (a, s1)
    → (m >>= f) s ≡ f a s1
bind_step m f s s1 a e = rw (e, ◌>>=◌) refl

pub IsReader-bind :
    {A B : Type 0} (m : Reader A) (f : A → Reader B)
    → IsReader m
    → ((a : A) → IsReader (f a))
    → IsReader (m >>= f)
IsReader-bind m f u v = record {
  took = λ s b s2 h.
      let (a, s1, e, g) = bind-eq-ok m f s s2 b h in
      let (x, p, q, r) = u.took s a s1 e in
      let (y, p', q', r') = (v a).took s1 b s2 g in
      (
        x ++ y,
        p ∙ ap (λ t. x ++ t) p' ∙ sym (append_assoc x y s2.bytes),
        omega (arith, length-append x y),
        λ behind failure.
            rw (append_assoc x y behind)
              (bind_step m f _ _ a (r (y ++ behind) failure) ∙ r' behind failure),
      );
}

pub read_parts :
    {A : Type 0} (a b : A) (s s' : Budgeted)
    → ◌≡◌ {A = Result (A × Budgeted) GgufError} (ok (a, s)) (ok (b, s'))
    → (a ≡ b) × (s ≡ s')
read_parts {A = A} a b s s' h =
    let e = ok-injective h in (ap (λ (p : A × Budgeted). p.0) e, ap (λ (p : A × Budgeted). p.1) e)

pub IsReader-return : {A : Type 0} (a : A) → IsReader (return a)
IsReader-return a = record {
  took = λ s b s' h.
      let (p, e) = read_parts a b s s' h in
      (
        [],
        ap (λ (x : Budgeted). x.bytes) e,
        omega (arith, ap (λ (x : Budgeted). x.remaining) e),
        λ behind failure. rw p (
            ap
              (λ (x : Budgeted).
                ok (b, record { bytes = behind; failure = failure; remaining = x.remaining }))
              e),
      );
}

pub IsReader-refuse : {A : Type 0} (e : GgufError) → IsReader {A = A} (refuse e)
IsReader-refuse e = record { took = λ s b s' h. cc }

pub fetch-eq-ok :
    (n : ℕ) (budgeted what : String) (s : Budgeted) (a : Text) (s' : Budgeted)
    → fetch n budgeted what s ≡ ok (a, s')
    → (n ≤ s.remaining)
      × (n ≤ length s.bytes)
      × (take n s.bytes ≡ a)
      × (record s { bytes = drop n s.bytes; remaining = s.remaining - n } ≡ s')
unfolding fetch
fetch-eq-ok n budgeted what s a s' h = elim (Bool-cases (leb n s.remaining)) [
  | inr e ↦ cc (rw (e, ◌>>=◌) at h)
  | inl e ↦ elim (Bool-cases (leb n (length s.bytes))) [
    | inr f ↦ cc (rw (e, f, ◌>>=◌) at h)
    | inl f ↦
        let (p, q) = read_parts _ _ _ _ (rw (e, f, ◌>>=◌) at h) in
        (leb→le n s.remaining e, leb→le n (length s.bytes) f, p, q)
  ]
]

pub fetch_lem :
    (n : ℕ) (budgeted what : String) (s : Budgeted)
    → n ≤ s.remaining
    → n ≤ length s.bytes
    → fetch n budgeted what s
      ≡ ok (take n s.bytes, record s { bytes = drop n s.bytes; remaining = s.remaining - n })
unfolding fetch
fetch_lem n budgeted what s p q =
    rw (le→leb n s.remaining p, le→leb n (length s.bytes) q, ◌>>=◌) refl

pub fetch-IsReader : (n : ℕ) (budgeted what : String) → IsReader (fetch n budgeted what)
fetch-IsReader n budgeted what = record {
  took = λ s a s' h.
      let (p, q, e, f) = fetch-eq-ok n budgeted what s a s' h in
      let size : length (take n s.bytes) ≡ n = omega (arith, length-take n s.bytes) in
      let left = ap (λ (x : Budgeted). x.remaining) f in
      (
        take n s.bytes,
        sym (take-append-drop n s.bytes) ∙ ap (λ (x : Budgeted). take n s.bytes ++ x.bytes) f,
        omega arith,
        λ behind failure.
            fetch_lem n budgeted what
              (record {
                bytes = take n s.bytes ++ behind;
                failure = failure;
                remaining = s.remaining;
              })
              p (omega (arith, length-append (take n s.bytes) behind))
            ∙ rw
                (
                  take_exact n (take n s.bytes) behind size,
                  drop_exact n (take n s.bytes) behind size,
                  e,
                  left,
                )
                refl,
      );
}

pub IsReader-if :
    {A : Type 0} (b : Bool) (x y : Reader A)
    → IsReader x
    → IsReader y
    → IsReader (if b then x else y)
IsReader-if true x y p q = p
IsReader-if false x y p q = q

pub number-IsReader : (width : ℕ) (what : String) → IsReader (number width what)
unfolding number
number-IsReader width what =
    IsReader-bind (fetch width what what) (λ bytes. return (from_le_bytes bytes))
      (fetch-IsReader width what what) (λ bytes. IsReader-return (from_le_bytes bytes))

number_as :
    (width : ℕ) (what : String) (c : ℕ → MetadataValue)
    → IsReader (number width what >>= λ v. return (c v))
number_as width what c =
    IsReader-bind (number width what) (λ v. return (c v)) (number-IsReader width what)
      (λ v. IsReader-return (c v))

pub within-IsReader : (what : String) (value limit : ℕ) → IsReader (within what value limit)
within-IsReader what value limit =
    IsReader-if (ltb limit value) (refuse _) (return tt) (IsReader-refuse _) (IsReader-return tt)

module _ (is_utf8 : Text → Bool) where
  pub read_string-IsReader : (what : String) → IsReader (read_string is_utf8 what)
  unfolding read_string
  read_string-IsReader what = IsReader-bind _ _ (number-IsReader 8 what) (λ len.
      IsReader-bind _ _ (within-IsReader "string length" len max_string_bytes) (λ u.
        IsReader-bind _ _ (fetch-IsReader len "string contents" what)
          (λ bytes. IsReader-if (is_utf8 bytes) _ _ (IsReader-return bytes) (IsReader-refuse _))))

  read_value_with-IsReader :
      (r : Reader MetadataValue) (type_id : ℕ)
      → IsReader r
      → IsReader (read_value_with is_utf8 r type_id)
  unfolding read_value_with
  read_value_with-IsReader r type_id v = IsReader-if (type_id == 0) _ _ (number_as 1 "uint8" u8) (
      IsReader-if (type_id == 1) _ _ (number_as 1 "int8" i8) (
        IsReader-if (type_id == 2) _ _ (number_as 2 "uint16" u16) (
          IsReader-if (type_id == 3) _ _ (number_as 2 "int16" i16) (
            IsReader-if (type_id == 4) _ _ (number_as 4 "uint32" u32) (
              IsReader-if (type_id == 5) _ _ (number_as 4 "int32" i32) (
                IsReader-if (type_id == 6) _ _ (number_as 4 "float32" f32) (
                  IsReader-if (type_id == 7) _ _ (number_as 1 "bool" (λ v. boolean (not (v == 0))))
                    (IsReader-if (type_id == 8) _ _
                      (IsReader-bind _ _ (read_string-IsReader "string")
                        (λ t. IsReader-return (string t)))
                      (IsReader-if (type_id == 9) _ _ v (
                        IsReader-if (type_id == 10) _ _ (number_as 8 "uint64" u64) (
                          IsReader-if (type_id == 11) _ _ (number_as 8 "int64" i64) (
                            IsReader-if (type_id == 12) _ _ (number_as 8 "float64" f64)
                              (IsReader-refuse _)))))))))))))

  read_elements-IsReader :
      (r : Reader MetadataValue) (n : ℕ) → IsReader r → IsReader (read_elements r n)
  unfolding read_elements
  read_elements-IsReader r zero v = IsReader-return nil
  read_elements-IsReader r (suc n) v =
      IsReader-bind _ _ v
        (λ x. IsReader-bind _ _ (read_elements-IsReader r n v) (λ xs. IsReader-return (cons x xs)))

  read_array-IsReader : (levels depth : ℕ) → IsReader (read_array is_utf8 levels depth)
  unfolding read_array
  read_array-IsReader zero depth = IsReader-refuse _
  read_array-IsReader (suc levels) depth =
      IsReader-if (leb max_array_depth depth) _ _ (IsReader-refuse _) (
        IsReader-bind _ _ (number-IsReader 4 "array element type") (λ t.
          IsReader-bind _ _ (number-IsReader 8 "array length") (λ len.
            IsReader-bind _ _ (within-IsReader "array length" len max_array_len) (λ u.
              IsReader-bind _ _
                (read_elements-IsReader _ len
                  (read_value_with-IsReader _ t (read_array-IsReader levels (depth + 1))))
                (λ vs. IsReader-return _)))))

  pub read_value-IsReader : (type_id depth : ℕ) → IsReader (read_value is_utf8 type_id depth)
  unfolding read_value
  read_value-IsReader type_id depth =
      read_value_with-IsReader _ type_id (read_array-IsReader (max_array_depth - depth) depth)
