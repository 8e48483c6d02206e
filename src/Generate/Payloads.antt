-- ===== src/Generate/Payloads.antt =====
-- generate.rs: the loop over the payloads of a frame, taken apart between its payloads.
use mehoy_malloy_ai_runtime.Common.{
  ℕ, ◌+◌, ◌≤◌, ◌<◌, ◌≡◌, refl, ap, ◌∙◌, inl, inr, true, Option, none, some, List, [], ◌∷◌, ◌++◌,
  arith, ltb, Bool-cases, Result, ok, err, length,
}
use mehoy_malloy_ai_runtime.Common.Text.{Text}
use mehoy_malloy_ai_runtime.Inference.Stream.{
  StreamItem, GenerationSummary, GenerationSink, delta, delta_taken,
}
use mehoy_malloy_ai_runtime.Generate.{WireResponse}
use mehoy_malloy_ai_runtime.Generate.Streaming.{
  Verdict, marked, understand, take_payloads, pass_on, Taken, item_first, less,
}

less-le : (o : Option StreamItem) (n : ℕ) → n ≤ less o n + 1
less-le none n = omega arith
less-le (some i) n = omega arith

pass_on-along :
    (f g : ℕ → Option GenerationSummary → Taken) (n m : ℕ) (t : Option GenerationSummary)
    (k : GenerationSink) (u : Result (Option Text × Option GenerationSummary) Verdict)
    → 0 < n
    → 0 < m
    → ((i j : ℕ) (t' : Option GenerationSummary) → n ≤ i + 1 → m ≤ j + 1 → f i t' ≡ g j t')
    → pass_on f n t k u ≡ pass_on g m t k u
unfolding pass_on
pass_on-along f g n m t k (err v) p q go = refl
pass_on-along f g n m t k (ok (none, t')) p q go = go n m t' (omega arith) (omega arith)
pass_on-along f g n m t k (ok (some text, t')) p q go =
    rw
      (
        positive n p,
        positive m q,
        go (less (delta text k) n) (less (delta text k) m) t' (less-le (delta text k) n)
            (less-le (delta text k) m),
      )
      refl
  where
    positive : (n : ℕ) → 0 < n → ltb 0 n ≡ true
    positive n p = ground arith

-- Behind what a loop over payloads has done.
abbrev pub then_take : (Option GenerationSummary → Taken) → Taken → Taken
then_take f (items, t, some v) = (items, t, some v)
then_take f (items, t, none) = (items ++ (f t).0, (f t).1, (f t).2)

then_take-item_first :
    (f : Option GenerationSummary → Taken) (o : Option StreamItem) (x : Taken)
    → item_first o (then_take f x) ≡ then_take f (item_first o x)
then_take-item_first f none (items, t, some v) = refl
then_take-item_first f none (items, t, none) = refl
then_take-item_first f (some i) (items, t, some v) = refl
then_take-item_first f (some i) (items, t, none) = refl

pass_on-then_take :
    (h : Option GenerationSummary → Taken) (f g : ℕ → Option GenerationSummary → Taken) (n : ℕ)
    (t : Option GenerationSummary) (k : GenerationSink)
    (u : Result (Option Text × Option GenerationSummary) Verdict)
    → ((i : ℕ) (t' : Option GenerationSummary) → n ≤ i + 1 → f i t' ≡ then_take h (g i t'))
    → pass_on f n t k u ≡ then_take h (pass_on g n t k u)
unfolding pass_on
pass_on-then_take h f g n t k (err v) go = refl
pass_on-then_take h f g n t k (ok (none, t')) go = go n t' (omega arith)
pass_on-then_take h f g n t k (ok (some text, t')) go =
    elim (Bool-cases (delta_taken (ltb 0 n) text k)) [
      | inl b ↦ rw b (
          ap (item_first (delta text k)) (go (less (delta text k) n) t' (less-le (delta text k) n))
          ∙ then_take-item_first h (delta text k) (g (less (delta text k) n) t'))
      | inr b ↦ rw b refl
    ]

-- The loop over payloads is never left because the body was closed.
abbrev pub Leaves : Option Verdict → Type 0
Leaves none = Unit {0}
Leaves (some (ok end)) = end ≡ marked
Leaves (some (err i)) = Unit {0}

Leaves-item_first : (o : Option StreamItem) (x : Taken) → Leaves x.2 → Leaves (item_first o x).2
Leaves-item_first o (items, t, v) h = h

pass_on-Leaves :
    (f : ℕ → Option GenerationSummary → Taken) (n : ℕ) (t : Option GenerationSummary)
    (k : GenerationSink) (u : Result (Option Text × Option GenerationSummary) Verdict)
    → ((v : Verdict) → u ≡ err v → Leaves (some v))
    → ((i : ℕ) (t' : Option GenerationSummary) → Leaves (f i t').2)
    → Leaves (pass_on f n t k u).2
unfolding pass_on
pass_on-Leaves f n t k (err v) p go = p v refl
pass_on-Leaves f n t k (ok (none, t')) p go = go n t'
pass_on-Leaves f n t k (ok (some text, t')) p go =
    elim (Bool-cases (delta_taken (ltb 0 n) text k)) [
      | inl b ↦ rw b (
          Leaves-item_first (delta text k) (f (less (delta text k) n) t')
            (go (less (delta text k) n) t'))
      | inr b ↦ rw b tt
    ]

module _ (parse_response : Text → Result WireResponse Text) where
  -- The consumer's patience does not matter where there is enough of it.
  pub take_payloads-room :
      (ps : List Text) (n m : ℕ) (t : Option GenerationSummary) (k : GenerationSink)
      → length ps ≤ n
      → length ps ≤ m
      → take_payloads parse_response n ps t k ≡ take_payloads parse_response m ps t k
  unfolding take_payloads
  take_payloads-room [] n m t k p q = refl
  take_payloads-room (x ∷ ps) n m t k p q =
      pass_on-along (λ i t'. take_payloads parse_response i ps t' k)
        (λ j t'. take_payloads parse_response j ps t' k) n m t k (understand parse_response x t)
        (omega arith) (omega arith)
        (λ i j t' a b. take_payloads-room ps i j t' k (omega arith) (omega arith))

  pub take_payloads-append :
      (ps qs : List Text) (n : ℕ) (t : Option GenerationSummary) (k : GenerationSink)
      → length ps + length qs ≤ n
      → take_payloads parse_response n (ps ++ qs) t k
        ≡ then_take
            (λ t'. take_payloads parse_response (length qs) qs t' k)
            (take_payloads parse_response n ps t k)
  unfolding take_payloads
  take_payloads-append [] qs n t k p =
      take_payloads-room qs n (length qs) t k (omega arith) (omega arith)
  take_payloads-append (x ∷ ps) qs n t k p =
      pass_on-then_take (λ t'. take_payloads parse_response (length qs) qs t' k)
        (λ i t'. take_payloads parse_response i (ps ++ qs) t' k)
        (λ i t'. take_payloads parse_response i ps t' k) n t k (understand parse_response x t)
        (λ i t' a. take_payloads-append ps qs i t' k (omega arith))

  understand-Leaves :
      (x : Text) (t : Option GenerationSummary) (v : Verdict)
      → understand parse_response x t ≡ err v
      → Leaves (some v)
  unfolding understand
  understand-Leaves x t v h = ground arith

  pub take_payloads-Leaves :
      (ps : List Text) (n : ℕ) (t : Option GenerationSummary) (k : GenerationSink)
      → Leaves (take_payloads parse_response n ps t k).2
  unfolding take_payloads
  take_payloads-Leaves [] n t k = tt
  take_payloads-Leaves (x ∷ ps) n t k =
      pass_on-Leaves (λ i t'. take_payloads parse_response i ps t' k) n t k
        (understand parse_response x t) (understand-Leaves x t)
        (λ i t'. take_payloads-Leaves ps i t' k)
