-- ===== src/Inference/Embedding/Validation.antt =====
-- inference.rs: what a validated embedding response guarantees, and that nothing else is refused.
use mehoy_malloy_ai_runtime.Inference.Embedding.{
  EmbedRequest, Embedding, EmbeddingResult, dimension_of, all_finite, find_index, for_input,
  all_of_dimension, dimension, check_one, check_each, validate,
}
use mehoy_malloy_ai_runtime.Common.{
  ℕ, zero, suc, ◌+◌, ◌≤◌, ◌<◌, ◌≡◌, refl, sym, ap, ◌∙◌, ◌≢◌, ◌⊎◌, inl, inr, Bool, true, false, some,
  List, [], ◌∷◌, arith, ◌==◌, ==_iff, Bool-cases, Option-cases, ok, Result-cases, ok-injective,
  is_some, length, get_elem?, set, replicate, is_empty, All, length-set, get_elem?-set_ne,
}

-- How many slots are taken.
abbrev taken : List Bool → ℕ
taken [] = 0
taken (true ∷ bs) = suc (taken bs)
taken (false ∷ bs) = taken bs

taken-le : (bs : List Bool) → taken bs ≤ length bs
taken-le [] = omega arith
taken-le (true ∷ bs) = omega (arith, taken-le bs)
taken-le (false ∷ bs) = omega (arith, taken-le bs)

taken-set :
    (bs : List Bool) (i : ℕ) → get_elem? bs i ≡ some false → taken (set bs i true) ≡ suc (taken bs)
taken-set [] i h = cc
taken-set (true ∷ bs) zero h = cc
taken-set (false ∷ bs) zero h = refl
taken-set (true ∷ bs) (suc i) h = ap suc (taken-set bs i h)
taken-set (false ∷ bs) (suc i) h = taken-set bs i h

taken-replicate : (n : ℕ) → taken (replicate n false) ≡ 0
taken-replicate zero = refl
taken-replicate (suc n) = taken-replicate n

length-replicate : (n : ℕ) → length (replicate n false) ≡ n
length-replicate zero = refl
length-replicate (suc n) = ap suc (length-replicate n)

get_elem?-replicate : (n i : ℕ) → get_elem? (replicate n false) i ≢ some true
get_elem?-replicate zero i h = cc
get_elem?-replicate (suc n) zero h = cc
get_elem?-replicate (suc n) (suc i) h = get_elem?-replicate n i h

-- Where every slot is taken, the slot of each index in range is.
all_taken :
    (bs : List Bool) (i : ℕ) → taken bs ≡ length bs → i < length bs → get_elem? bs i ≡ some true
all_taken [] i h lt = absurd (omega arith)
all_taken (true ∷ bs) zero h lt = refl
all_taken (true ∷ bs) (suc i) h lt = all_taken bs i (omega arith) (omega arith)
all_taken (false ∷ bs) i h lt = absurd (omega (arith, taken-le bs))

-- Every embedding has a vector with values, all finite.
abbrev pub IsSound : Embedding → Type 0
IsSound e = (is_empty e.vector ≡ false) × (all_finite e.vector ≡ true)

check_one-eq-ok :
    (e : Embedding) (seen seen' : List Bool)
    → check_one e seen ≡ ok seen'
    → (get_elem? seen e.index ≡ some false) × IsSound e × (seen' ≡ set seen e.index true)
unfolding check_one
check_one-eq-ok e seen seen' h = elim (Option-cases (get_elem? seen e.index)) [
  | inl g ↦ ground arith
  | inr (slot, g) ↦ ground arith
]

-- What a run of the loop that ends well has established.
record Checked (es : List Embedding) (seen seen' : List Bool) : Type 0 where
  counted : taken seen' ≡ taken seen + length es
  kept : length seen' ≡ length seen
  sound : All IsSound es
  found :
      (i : ℕ)
      → get_elem? seen' i ≡ some true
      → (get_elem? seen i ≡ some true) ⊎ ((e : Embedding) × (find_index i es ≡ some e))

get_elem?-set-true :
    (bs : List Bool) (k i : ℕ)
    → get_elem? (set bs k true) i ≡ some true
    → (get_elem? bs i ≡ some true) ⊎ ((k == i) ≡ true)
get_elem?-set-true bs k i h = elim (Bool-cases (k == i)) [
  | inl same ↦ inr same
  | inr other ↦ inl (sym (get_elem?-set_ne bs k i true (λ e. cc ((==_iff k i).1 e))) ∙ h)
]

check_each-Checked :
    (es : List Embedding) (seen seen' : List Bool)
    → check_each es seen ≡ ok seen'
    → Checked es seen seen'
unfolding check_each find_index
check_each-Checked [] seen seen' h =
    let e : seen ≡ seen' = ok-injective h in
    rw (← e) (record { counted = omega arith; kept = refl; sound = tt; found = λ i g. inl g })
check_each-Checked (e ∷ es) seen seen' h = elim (Result-cases (check_one e seen)) [
  | inr (d, c) ↦ cc
  | inl (mid, c) ↦
      let (free, sound, written) = check_one-eq-ok e seen mid c in
      let rest = check_each-Checked es mid seen' (rw (c) at h) in
      record {
        counted = omega (arith, rest.counted, ap taken written, taken-set seen e.index free);
        kept = rest.kept ∙ (ap length written ∙ length-set seen e.index true);
        sound = (sound, rest.sound);
        found = λ i g. elim (rest.found i g) [
          | inl m ↦ elim (get_elem?-set-true seen e.index i (rw written at m)) [
            | inl before ↦ inl before
            | inr same ↦ inr (e, rw same)
          ]
          | inr (x, fx) ↦ elim (Bool-cases (e.index == i)) [
            | inl same ↦ inr (e, rw same)
            | inr other ↦ inr (x, rw other fx)
          ]
        ];
      }
]

all_of_dimension-All :
    (n : ℕ) (es : List Embedding) → all_of_dimension n es ≡ true → All (λ e. dimension_of e ≡ n) es
all_of_dimension-All n [] h = tt
all_of_dimension-All n (e ∷ es) h =
    let both : (dimension_of e ≡ n) × (all_of_dimension n es ≡ true) = ground arith in
    (both.0, all_of_dimension-All n es both.1)

dimension-All :
    (es : List Embedding)
    → is_some (dimension es) ≡ true
    → (n : ℕ) × All (λ e. dimension_of e ≡ n) es
unfolding dimension
dimension-All [] h = cc
dimension-All (e ∷ es) h =
    let agree : all_of_dimension (dimension_of e) es ≡ true = ground arith in
    (dimension_of e, (refl, all_of_dimension-All (dimension_of e) es agree))

-- What a caller is promised of a response: as many embeddings as inputs, an embedding under the
-- index of every input, every vector non-empty and finite, and one dimension for all.
pub record IsUsable (request : EmbedRequest) (result : EmbeddingResult) : Type 0 where
  pub counted : length result.embeddings ≡ length request.inputs
  pub attributed :
      (i : ℕ) → i < length request.inputs → (e : Embedding) × (for_input result i ≡ some e)
  pub sound : All IsSound result.embeddings
  pub shared : (n : ℕ) × All (λ e. dimension_of e ≡ n) result.embeddings

validate-eq-ok :
    (request : EmbedRequest) (result : EmbeddingResult)
    → validate request result ≡ ok tt
    → (length result.embeddings ≡ length request.inputs)
      × (is_some (dimension result.embeddings) ≡ true)
      × (seen : List Bool) × (check_each result.embeddings (replicate (length request.inputs) false)
          ≡ ok seen)
unfolding validate
validate-eq-ok request result h =
    elim (Result-cases (check_each result.embeddings (replicate (length request.inputs) false))) [
      | inl (seen, c) ↦ (ground arith, ground arith, seen, c)
      | inr (d, c) ↦ absurd (ground arith)
    ]

-- A response that passes validation is usable for the request: every input has its embedding, no
-- vector is empty or holds a value that is not finite, and all have one dimension.
pub validate-IsUsable :
    (request : EmbedRequest) (result : EmbeddingResult)
    → validate request result ≡ ok tt
    → IsUsable request result
unfolding for_input
validate-IsUsable request result h =
    let (counted, agree, seen, c) = validate-eq-ok request result h in
    let n : ℕ = length request.inputs in
    let run = check_each-Checked result.embeddings (replicate n false) seen c in
    let full : taken seen ≡ length seen =
      omega (arith, run.counted, run.kept, taken-replicate n, length-replicate n) in
    record {
      counted = counted;
      attributed = λ i lt.
          elim (run.found i (all_taken seen i full (omega (arith, run.kept, length-replicate n)))) [
            | inl g ↦ absurd (get_elem?-replicate n i g)
            | inr found ↦ found
          ];
      sound = run.sound;
      shared = dimension-All result.embeddings agree;
    }

-- The indices name inputs, each one once.
abbrev pub AreDistinct : ℕ → List Embedding → Type 0
AreDistinct n [] = Unit {0}
AreDistinct n (e ∷ es) = (e.index < n) × All (λ x. x.index ≢ e.index) es × AreDistinct n es

check_one-ok :
    (e : Embedding) (seen : List Bool)
    → get_elem? seen e.index ≡ some false
    → IsSound e
    → check_one e seen ≡ ok (set seen e.index true)
unfolding check_one
check_one-ok e seen free sound = rw (free, check_one) (ground arith)

abbrev AreFree : List Bool → List Embedding → Type 0
AreFree seen es = All (λ e. get_elem? seen e.index ≡ some false) es

AreFree-set :
    (k : ℕ) (seen : List Bool) (es : List Embedding)
    → All (λ x. x.index ≢ k) es
    → AreFree seen es
    → AreFree (set seen k true) es
AreFree-set k seen [] d f = tt
AreFree-set k seen (e ∷ es) d f =
    (get_elem?-set_ne seen k e.index true (λ p. d.0 (sym p)) ∙ f.0, AreFree-set k seen es d.1 f.1)

check_each-ok :
    (n : ℕ) (es : List Embedding) (seen : List Bool)
    → AreDistinct n es
    → All IsSound es
    → AreFree seen es
    → (seen' : List Bool) × (check_each es seen ≡ ok seen')
unfolding check_each
check_each-ok n [] seen d s f = (seen, refl)
check_each-ok n (e ∷ es) seen d s f =
    rw (check_one-ok e seen f.0 s.0)
      (check_each-ok n es (set seen e.index true) d.2 s.1 (AreFree-set e.index seen es d.1 f.1))

get_elem?-replicate_lt : (n i : ℕ) → i < n → get_elem? (replicate n false) i ≡ some false
get_elem?-replicate_lt zero i h = absurd (omega arith)
get_elem?-replicate_lt (suc n) zero h = refl
get_elem?-replicate_lt (suc n) (suc i) h = get_elem?-replicate_lt n i (omega arith)

AreDistinct-AreFree :
    (n : ℕ) (es : List Embedding) → AreDistinct n es → AreFree (replicate n false) es
AreDistinct-AreFree n [] d = tt
AreDistinct-AreFree n (e ∷ es) d =
    (get_elem?-replicate_lt n e.index d.0, AreDistinct-AreFree n es d.2)

All-all_of_dimension :
    (n : ℕ) (es : List Embedding) → All (λ e. dimension_of e ≡ n) es → all_of_dimension n es ≡ true
All-all_of_dimension n [] h = refl
All-all_of_dimension n (e ∷ es) h = ground (arith, h.0, All-all_of_dimension n es h.1)

dimension-some :
    (n : ℕ) (es : List Embedding)
    → 0 < length es
    → All (λ e. dimension_of e ≡ n) es
    → is_some (dimension es) ≡ true
unfolding dimension
dimension-some n [] p h = absurd (omega arith)
dimension-some n (e ∷ es) p h =
    ground (arith, h.0, All-all_of_dimension n es h.1, ap (λ k. all_of_dimension k es) h.0)

-- Nothing usable is refused: a response to at least one input passes validation if it has as many
-- embeddings as inputs, under distinct indices of inputs, with non-empty finite vectors of one
-- dimension.
pub validate_complete :
    (n : ℕ) (request : EmbedRequest) (result : EmbeddingResult)
    → 0 < length request.inputs
    → length result.embeddings ≡ length request.inputs
    → AreDistinct (length request.inputs) result.embeddings
    → All IsSound result.embeddings
    → All (λ e. dimension_of e ≡ n) result.embeddings
    → validate request result ≡ ok tt
unfolding validate
validate_complete n request result some_input counted distinct sound shared =
    let k : ℕ = length request.inputs in
    let (seen, c) =
      check_each-ok k result.embeddings (replicate k false) distinct sound
        (AreDistinct-AreFree k result.embeddings distinct) in
    let agree = dimension-some n result.embeddings (omega arith) shared in
    rw ((==_iff _ _).1 counted) (rw c (rw agree))
