-- ===== src/Worker/Record.antt =====
-- log.rs: what the bounded record of a worker's output holds.
use mehoy_malloy_ai_runtime.Common.{
  ℕ, zero, suc, ◌+◌, ◌-◌, ◌≤◌, ◌<◌, min, max, ◌≡◌, refl, sym, ap, ◌∙◌, ◌≢◌, inl, inr, false, List,
  [], ◌∷◌, ◌++◌, arith, ◌==◌, if◌then◌else◌, ==_iff, Bool-cases, length, drop, length-append,
  length-drop,
}
use mathlib.Core.List.{append-nil, append_assoc}
use mehoy_malloy_ai_runtime.Common.Words.{u64_max}
use mehoy_malloy_ai_runtime.Worker.{
  LogLine, WorkerLog, with_capacity, record_line, record_all, dropped,
}

drop-end :
    (n : ℕ) (xs : List LogLine) (x : LogLine)
    → n ≤ length xs
    → drop n (xs ++ x ∷ []) ≡ drop n xs ++ x ∷ []
drop-end zero xs x h = refl
drop-end (suc n) [] x h = absurd (omega arith)
drop-end (suc n) (y ∷ xs) x h = drop-end n xs x (omega arith)

drop-drop_one : (n : ℕ) (xs : List LogLine) → drop 1 (drop n xs) ≡ drop (suc n) xs
drop-drop_one zero xs = refl
drop-drop_one (suc n) [] = refl
drop-drop_one (suc n) (x ∷ xs) = drop-drop_one n xs

-- The log of a history: its last lines, as many as the capacity, and the count of all of them.
pub record IsRecord (c : ℕ) (history : List LogLine) (l : WorkerLog) : Type 0 where
  pub bounded : l.capacity ≡ c
  pub latest : l.lines ≡ drop (length history - c) history
  pub counted : l.total ≡ min (length history) u64_max

drop_same : (n k : ℕ) (xs : List LogLine) → n ≡ k → drop n xs ≡ drop k xs
drop_same n k xs e = ap (λ i. drop i xs) e

different : (a b : ℕ) → (a == b) ≡ false → a ≢ b
different a b e = ground arith

drop_nothing : (n : ℕ) → [] ≡ drop {A = LogLine} n []
drop_nothing zero = refl
drop_nothing (suc n) = refl

latest_lem :
    (c : ℕ) (h lines : List LogLine) (line : LogLine)
    → 0 < c
    → lines ≡ drop (length h - c) h
    → (if length lines == c then drop 1 lines else lines) ++ line ∷ []
      ≡ drop (length (h ++ line ∷ []) - c) (h ++ line ∷ [])
latest_lem c h lines line pos e =
    let size : length lines ≡ length h - (length h - c) =
      ap length e ∙ length-drop (length h - c) h in
    let more : length (h ++ line ∷ []) ≡ length h + 1 =
      omega (arith, length-append h (line ∷ [])) in
    elim (Bool-cases (length lines == c)) [
      | inl f ↦
          let full = (==_iff (length lines) c).0 f in
          rw f (
            ap (λ xs. drop 1 xs ++ line ∷ []) e
            ∙ ap (λ xs. xs ++ line ∷ []) (drop-drop_one (length h - c) h)
            ∙ sym (drop-end (suc (length h - c)) h line (omega arith))
            ∙ drop_same (suc (length h - c)) (length (h ++ line ∷ []) - c) (h ++ line ∷ [])
                (omega arith))
      | inr f ↦
          let other = different (length lines) c f in
          let short : length h < c = omega arith in
          rw f (
            ap (λ xs. xs ++ line ∷ []) (e ∙ drop_same (length h - c) 0 h (omega arith))
            ∙ drop_same 0 (length (h ++ line ∷ []) - c) (h ++ line ∷ []) (omega arith))
    ]

record_line-IsRecord :
    (c : ℕ) (history : List LogLine) (l : WorkerLog) (line : LogLine)
    → 0 < c
    → IsRecord c history l
    → IsRecord c (history ++ line ∷ []) (record_line line l)
unfolding record_line
record_line-IsRecord c history l line pos v =
    let more : length (history ++ line ∷ []) ≡ length history + 1 =
      omega (arith, length-append history (line ∷ [])) in
    let count = v.counted in
    record {
      bounded = v.bounded;
      latest = rw v.bounded (latest_lem c history l.lines line pos v.latest);
      counted = ground arith;
    }

record_all-IsRecord :
    (c : ℕ) (history lines : List LogLine) (l : WorkerLog)
    → 0 < c
    → IsRecord c history l
    → IsRecord c (history ++ lines) (record_all lines l)
unfolding record_all
record_all-IsRecord c history [] l pos v = rw (append-nil history) v
record_all-IsRecord c history (line ∷ lines) l pos v =
    rw (← append_assoc history (line ∷ []) lines) (
      record_all-IsRecord c (history ++ line ∷ []) lines (record_line line l) pos
        (record_line-IsRecord c history l line pos v))

-- A log keeps the most recent output and owns up to the rest: after any lines, a new log holds the
-- last of them, oldest first, as many as its capacity (or one, for a capacity of zero), and it
-- reports as dropped exactly the others, while fewer than 2 ^ 64 have been recorded.
pub log_lem :
    (capacity : ℕ) (lines : List LogLine)
    → length lines ≤ u64_max
    → let l = record_all lines (with_capacity capacity) in
      (l.lines ≡ drop (length lines - max capacity 1) lines)
      × (dropped l ≡ length lines - max capacity 1)
unfolding with_capacity dropped
log_lem capacity lines few =
    let v =
      record_all-IsRecord (max capacity 1) [] lines (with_capacity capacity) (omega arith)
        (record { bounded = refl; latest = drop_nothing (0 - max capacity 1); counted = refl }) in
    let size = ap length v.latest ∙ length-drop (length lines - max capacity 1) lines in
    let count = v.counted in (v.latest, omega arith)
