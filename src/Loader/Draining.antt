-- ===== src/Loader/Draining.antt =====
-- loader.rs: the wait of a teardown ends, and what an unload that goes ahead answers.
use mehoy_malloy_ai_runtime.Common.{
  ℕ, zero, suc, ◌+◌, ◌*◌, ◌≤◌, ◌<◌, ◌≡◌, refl, sym, ◌⊎◌, inl, inr, some, List, [], arith, leb, ◌==◌,
  leb→le, le→leb, ==_iff, Bool-cases, Result, ok, err,
}
use mehoy_malloy_ai_runtime.Common.Text.{Text}
use mehoy_malloy_ai_runtime.Loader.Model.{
  unloaded, unload_failed, LoadError, backend_error, LoadedModel, handle_ops,
}
use mehoy_malloy_ai_runtime.Loader.Unloading.{
  UnloadOutcome, drained, escalated, unsettled, Surroundings, drain,
}

shift : (n k : ℕ) → n + (1 + k) ≡ n + 1 + k
shift n k = omega arith

plus_zero : (n : ℕ) → n + 0 ≡ n
plus_zero n = omega arith

module _ {W B : Type 0} where
  -- The wait of a teardown ends, by its requests or by its deadline: on a clock that a pause of 20
  -- milliseconds moves on by at least as much, enough rounds for the budget give an answer. It
  -- counts exactly the requests that have not ended in the model it leaves, and it is above zero
  -- only once the deadline has passed.
  pub drain_ends :
      (fuel n : ℕ) (env : Surroundings) (deadline : ℕ) (ats : List ℕ) (m : LoadedModel W B)
      → ((k : ℕ) → env.now k + 20 ≤ env.now (k + 1))
      → deadline ≤ env.now n + 20 * fuel
      → (k : ℕ) × (left : ℕ) × ((drain (suc fuel) n env deadline ats m).1 ≡ some left)
        × (left ≡ unsettled (drain (suc fuel) n env deadline ats m).0.handles ats)
        × ((left ≡ 0) ⊎ (deadline ≤ env.now (n + k)))
  unfolding drain
  drain_ends zero n env deadline ats m clock enough =
      elim (Bool-cases (unsettled m.handles ats == 0)) [
        | inl z ↦ rw z (0, 0, refl, sym ((==_iff (unsettled m.handles ats) 0).0 z), inl refl)
        | inr z ↦
            rw (z, le→leb deadline (env.now n) (omega arith))
              (0, unsettled m.handles ats, refl, refl, inr (rw (plus_zero n) (omega arith)))
      ]
  drain_ends (suc fuel) n env deadline ats m clock enough =
      elim (Bool-cases (unsettled m.handles ats == 0)) [
        | inl z ↦ rw z (0, 0, refl, sym ((==_iff (unsettled m.handles ats) 0).0 z), inl refl)
        | inr z ↦ elim (Bool-cases (leb deadline (env.now n))) [
          | inl l ↦
              rw (z, l)
                (
                  0,
                  unsettled m.handles ats,
                  refl,
                  refl,
                  inr (rw (plus_zero n) (leb→le deadline (env.now n) l)),
                )
          | inr l ↦
              let (k, left, a, b, c) =
                drain_ends fuel (n + 1) env deadline ats (handle_ops (env.during n) m) clock
                  (let h = clock n in omega arith) in
              rw (z, l) (1 + k, left, a, b, rw (shift n k) c)
        ]
      ]

  -- How an unload that goes ahead ends: with all requests settled it is drained, with some left it
  -- is escalated, and a worker that would not stop makes it an error; the phase tells them apart.
  abbrev pub Ends :
      Result (Unit {0}) Text → ℕ → ℕ → LoadedModel W B × Result UnloadOutcome LoadError → Type 0
  Ends (ok u) cancelled left (m, answer) =
      (m.lifecycle.phase ≡ unloaded)
      × (m.lifecycle.active ≡ [])
      × (((left ≡ 0) × (answer ≡ ok (drained cancelled)))
          ⊎ ((0 < left) × (answer ≡ ok (escalated cancelled left))))
  Ends (err detail) cancelled left (m, answer) =
      (m.lifecycle.phase ≡ unload_failed)
      × (m.lifecycle.active ≡ [])
      × (answer ≡ err (backend_error detail))
