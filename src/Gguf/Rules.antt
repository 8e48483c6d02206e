-- ===== src/Gguf/Rules.antt =====
-- gguf.rs: rules by which the parts of the reader make values of bytes.
use mehoy_malloy_ai_runtime.Common.{
  ℕ, zero, suc, ◌+◌, ◌-◌, ◌/◌, ◌≤◌, ◌<◌, String, ◌≡◌, refl, sym, ap, ◌∙◌, Bool, true, false, Option,
  [], ◌++◌, arith, ltb, if◌then◌else◌, ok, length, length-append,
}
use mathlib.Core.List.{append-nil, append_assoc}
use mehoy_malloy_ai_runtime.Common.Text.{Text}
use mehoy_malloy_ai_runtime.Gguf.{
  Reader, ◌>>=◌, ◌>>◌, return, refuse, implausible, fetch, number, within, from_le_bytes,
  read_string, max_string_bytes,
}
use mehoy_malloy_ai_runtime.Gguf.Layout.{range, le_bytes, string_bytes, IsString}
use mehoy_malloy_ai_runtime.Gguf.Reading.{bind_step, fetch_lem, take_exact, drop_exact}

-- The reader makes the value of the bytes, whatever stands behind them, and pays for them.
pub record Reads {A : Type 0} (r : Reader A) (bytes : Text) (a : A) : Type 0 where
  pub reads :
      (behind : Text) (failure : Option Text) (remaining : ℕ)
      → length bytes ≤ remaining
      → r (record { bytes = bytes ++ behind; failure = failure; remaining = remaining })
        ≡ ok (a, record { bytes = behind; failure = failure; remaining = remaining - length bytes })

pub Reads-return : {A : Type 0} (a : A) → Reads (return a) [] a
Reads-return a = record {
  reads = λ behind failure remaining h.
      ap (λ n. ok (a, record { bytes = behind; failure = failure; remaining = n })) (omega arith);
}

same_rest : (a b c d : ℕ) → a + b ≡ c → d - a - b ≡ d - c
same_rest a b c d e = omega arith

pub Reads-bind :
    {A B : Type 0} (m : Reader A) (f : A → Reader B) (x y : Text) (a : A) (b : B)
    → Reads m x a
    → Reads (f a) y b
    → Reads (m >>= f) (x ++ y) b
Reads-bind m f x y a b u v = record {
  reads = λ behind failure remaining h.
      let size = length-append x y in
      rw (append_assoc x y behind) (
        bind_step m f _ _ a (u.reads (y ++ behind) failure remaining (omega arith))
        ∙ v.reads behind failure (remaining - length x) (omega arith)
        ∙ ap (λ n. ok (b, record { bytes = behind; failure = failure; remaining = n }))
            (same_rest (length x) (length y) (length (x ++ y)) remaining (sym size)));
}

-- A check reads nothing.
pub Reads-check :
    {A B : Type 0} (m : Reader A) (k : Reader B) (x : Text) (a : A) (b : B)
    → Reads m [] a
    → Reads k x b
    → Reads (m >> k) x b
Reads-check m k x a b u v = Reads-bind m (λ _. k) [] x a b u v

-- What comes last reads nothing more.
pub Reads-last :
    {A B : Type 0} (m : Reader A) (f : A → Reader B) (x : Text) (a : A) (b : B)
    → Reads m x a
    → Reads (f a) [] b
    → Reads (m >>= f) x b
Reads-last m f x a b u v = rw (← append-nil x) (Reads-bind m f x [] a b u v)

-- A reader followed by a function of what it read.
pub Reads-map :
    {A B : Type 0} (m : Reader A) (f : A → B) (x : Text) (a : A)
    → Reads m x a
    → Reads (m >>= λ v. return (f v)) x (f a)
Reads-map m f x a u = record {
  reads = λ behind failure remaining h.
      bind_step m (λ v. return (f v)) _ _ a (u.reads behind failure remaining h);
}

pub Reads-then :
    {A : Type 0} (b : Bool) (r r' : Reader A) (x : Text) (a : A)
    → b ≡ true
    → Reads r x a
    → Reads (if b then r else r') x a
Reads-then true r r' x a e u = u
Reads-then false r r' x a e u = cc

pub Reads-else :
    {A : Type 0} (b : Bool) (r r' : Reader A) (x : Text) (a : A)
    → b ≡ false
    → Reads r' x a
    → Reads (if b then r else r') x a
Reads-else true r r' x a e u = cc
Reads-else false r r' x a e u = u

pub fetch-Reads :
    (n : ℕ) (budgeted what : String) (x : Text) → length x ≡ n → Reads (fetch n budgeted what) x x
fetch-Reads n budgeted what x e = record {
  reads = λ behind failure remaining h.
      fetch_lem n budgeted what
        (record { bytes = x ++ behind; failure = failure; remaining = remaining }) (omega arith)
        (omega (arith, length-append x behind))
      ∙ rw (take_exact n x behind e, drop_exact n x behind e, e) refl;
}

length-le_bytes : (width n : ℕ) → length (le_bytes width n) ≡ width
unfolding le_bytes
length-le_bytes zero n = refl
length-le_bytes (suc width) n = omega (arith, length-le_bytes width (n / 256))

from_le_bytes-le_bytes : (width n : ℕ) → n < range width → from_le_bytes (le_bytes width n) ≡ n
unfolding le_bytes from_le_bytes
from_le_bytes-le_bytes zero n h = omega arith
from_le_bytes-le_bytes (suc width) n h =
    omega (arith, from_le_bytes-le_bytes width (n / 256) (omega arith))

pub number-Reads :
    (width n : ℕ) (what : String) → n < range width → Reads (number width what) (le_bytes width n) n
unfolding number
number-Reads width n what h = record {
  reads = λ behind failure remaining k.
      bind_step (fetch width what what) (λ bytes. return (from_le_bytes bytes)) _ _
        (le_bytes width n)
        ((fetch-Reads width what what (le_bytes width n) (length-le_bytes width n)).reads behind
          failure remaining k)
      ∙ ap
          (λ v. ok (
            v,
            record {
              bytes = behind;
              failure = failure;
              remaining = remaining - length (le_bytes width n);
            },
          ))
          (from_le_bytes-le_bytes width n h);
}

not_over : (a b : ℕ) → a ≤ b → ltb b a ≡ false
not_over a b h = ground arith

pub within-Reads :
    (what : String) (value limit : ℕ) → value ≤ limit → Reads (within what value limit) [] tt
within-Reads what value limit h =
    Reads-else (ltb limit value) (refuse (implausible what value limit)) (return tt) [] tt
      (not_over value limit h) (Reads-return tt)

module _ (is_utf8 : Text → Bool) where
  pub read_string-Reads :
      (what : String) (t : Text)
      → IsString is_utf8 t
      → Reads (read_string is_utf8 what) (string_bytes t) t
  unfolding read_string string_bytes
  read_string-Reads what t (short, valid) =
      Reads-bind _ _ (le_bytes 8 (length t)) t (length t) t
        (number-Reads 8 (length t) what (omega arith))
        (Reads-bind _ _ [] t tt t (within-Reads "string length" (length t) max_string_bytes short) (
          Reads-last _ _ t t t (fetch-Reads (length t) "string contents" what t refl)
            (Reads-then (is_utf8 t) _ _ [] t valid (Reads-return t))))
