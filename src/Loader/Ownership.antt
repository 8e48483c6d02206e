-- ===== src/Loader/Ownership.antt =====
-- loader.rs: over every interleaving of calls on a loaded model, its worker has one owner, and
-- admission stays closed once a teardown has begun.
use mehoy_malloy_ai_runtime.Common.{
  ℕ, ◌≡◌, refl, ap, ◌∙◌, ◌↔◌, inl, inr, true, false, Option, none, some, List, [], ◌∷◌, arith,
  Bool-cases, Option-cases, Result, ok, err, get_elem?, lookup,
}
use mehoy_malloy_ai_runtime.Common.Text.{Text}
use mehoy_malloy_ai_runtime.Cancel.{Op}
use mehoy_malloy_ai_runtime.Loader.Model.{
  LifecyclePhase, serving, unloading, unloaded, unload_failed, is_serving, not_serving, LoadedModel,
  with_handle, handle_op, admit, active_requests,
}
use mehoy_malloy_ai_runtime.Loader.Requests.{Between, begin, cancel_request}
use mehoy_malloy_ai_runtime.Loader.Model.{retain_active}
use mehoy_malloy_ai_runtime.Loader.Unloading.{
  UnloadOutcome, already_unloading, already_unloaded, already_failed, Start, answered, proceeds,
  outstanding_of, begin_unload, cancel_outstanding, end_unload,
}

-- A model and what the call that is tearing it down holds: its worker and the outstanding requests.
pub record System (W B : Type 0) : Type 0 where
  pub model : LoadedModel W B
  pub holder : Option (W × List ℕ)

-- One section of a call on the model, whichever comes next: an admission, a call on a handle of
-- a request, a count, a cancellation by identifier, and the parts of a teardown.
pub data Event : Type 0 where
  begins : Event
  acts : ℕ → Op → Event
  counts : Event
  cancels : (id : ℕ) → (between : Between) → Event
  unload_begins unload_cancels : Event
  unload_ends : Result (Unit {0}) Text → (cancelled left : ℕ) → Event

-- The worker is the model's while it serves, the teardown's while that runs, and nobody's after.
abbrev pub Owned : {W : Type 0} → W → LifecyclePhase → Option W → Option (W × List ℕ) → Type 0
Owned w serving worker holder = (worker ≡ some w) × (holder ≡ none)
Owned w unloading worker holder = (worker ≡ none) × ((ats : List ℕ) × (holder ≡ some (w, ats)))
Owned w unloaded worker holder = (worker ≡ none) × (holder ≡ none)
Owned w unload_failed worker holder = (worker ≡ none) × (holder ≡ none)

Owned-serving :
    {W : Type 0} (w : W) (p : LifecyclePhase) (k : Option W) (h : Option (W × List ℕ))
    → is_serving p ≡ true
    → Owned w p k h
    → (p ≡ serving) × (k ≡ some w) × (h ≡ none)
Owned-serving w serving k h t o = (refl, o.0, o.1)
Owned-serving w unloading k h t o = cc
Owned-serving w unloaded k h t o = cc
Owned-serving w unload_failed k h t o = cc

Owned-holder :
    {W : Type 0} (w v : W) (ats : List ℕ) (p : LifecyclePhase) (k : Option W)
    → Owned w p k (some (v, ats))
    → k ≡ none
Owned-holder w v ats serving k o = cc
Owned-holder w v ats unloading k o = o.0
Owned-holder w v ats unloaded k o = o.0
Owned-holder w v ats unload_failed k o = o.0

module _ {W B : Type 0} where
  abbrev pub taken_by : System W B → LoadedModel W B × Start W → System W B
  taken_by s (m, answered o) = record s { model = m }
  taken_by s (m, proceeds w ats) = record { model = m; holder = some (w, ats) }

  -- Only the call that holds the worker goes on with the teardown.
  unfoldable pub step : Event → System W B → System W B
  unfolding handle_op cancel_outstanding end_unload active_requests
  step begins s = record s { model = (begin s.model).0 }
  step (acts at o) s = record s { model = handle_op (at, o) s.model }
  step counts s = record s { model = (active_requests s.model).0 }
  step (cancels id between) s = record s { model = (cancel_request id between s.model).0 }
  step unload_begins s = taken_by s (begin_unload s.model)
  step unload_cancels s = elim s.holder [
    | none ↦ s
    | some (w, ats) ↦ record s { model = cancel_outstanding ats s.model }
  ]
  step (unload_ends stopped cancelled left) s = elim s.holder [
    | none ↦ s
    | some (w, ats) ↦ record {
      model = (end_unload stopped cancelled left s.model).0;
      holder = none;
    }
  ]

  unfoldable pub run : List Event → System W B → System W B
  run [] s = s
  run (e ∷ es) s = run es (step e s)

  abbrev pub phase_of : System W B → LifecyclePhase
  phase_of s = s.model.lifecycle.phase

  abbrev pub IsOwned : W → System W B → Type 0
  IsOwned w s = Owned w s.model.lifecycle.phase s.model.lifecycle.worker s.holder

  -- What admissions, counts and calls on handles leave alone.
  record Keeps (m m' : LoadedModel W B) : Type 0 where
    phase : m'.lifecycle.phase ≡ m.lifecycle.phase
    worker : m'.lifecycle.worker ≡ m.lifecycle.worker

  begin-Keeps : (m : LoadedModel W B) → Keeps m (begin m).0
  unfolding begin admit with_handle
  begin-Keeps m = ground arith

  cancel_request-Keeps :
      (id : ℕ) (between : Between) (m : LoadedModel W B) → Keeps m (cancel_request id between m).0
  unfolding cancel_request with_handle
  cancel_request-Keeps id between m =
      elim (Option-cases (lookup id (retain_active m.handles m.lifecycle.active))) [
        | inl e ↦ rw (e, cancel_request) (record { phase = refl; worker = refl })
        | inr (at, e) ↦ elim (Option-cases (get_elem? m.handles at)) [
          | inl f ↦ rw (e, cancel_request, f) (record { phase = refl; worker = refl })
          | inr (h, f) ↦ rw (e, cancel_request, f) (record { phase = refl; worker = refl })
        ]
      ]

  cancel_outstanding-Keeps :
      (ats : List ℕ) (m : LoadedModel W B) → Keeps m (cancel_outstanding ats m)
  unfolding cancel_outstanding
  cancel_outstanding-Keeps [] m = record { phase = refl; worker = refl }
  cancel_outstanding-Keeps (at ∷ ats) m =
      let k = cancel_outstanding-Keeps ats _ in record { phase = k.phase; worker = k.worker }

  Keeps-Owned :
      (w : W) (m m' : LoadedModel W B) (h : Option (W × List ℕ))
      → Keeps m m'
      → Owned w m.lifecycle.phase m.lifecycle.worker h
      → Owned w m'.lifecycle.phase m'.lifecycle.worker h
  Keeps-Owned w m m' h k o = rw (k.phase, k.worker) o

  pub begin_unload-serving :
      (w : W) (m : LoadedModel W B)
      → m.lifecycle.phase ≡ serving
      → m.lifecycle.worker ≡ some w
      → begin_unload m ≡ (
        record m {
          lifecycle = record { phase = unloading; active = m.lifecycle.active; worker = none };
        },
        proceeds w (outstanding_of m.handles m.lifecycle.active),
      )
  unfolding begin_unload
  begin_unload-serving w m p k = rw (p, begin_unload) (rw k)

  begin_unload-other :
      (m : LoadedModel W B)
      → is_serving m.lifecycle.phase ≡ false
      → (o : UnloadOutcome) × (begin_unload m ≡ (m, answered o))
  unfolding begin_unload
  begin_unload-other m h = go m.lifecycle.phase refl
    where
      go :
          (p : LifecyclePhase)
          → m.lifecycle.phase ≡ p
          → (o : UnloadOutcome) × (begin_unload m ≡ (m, answered o))
      go serving e = cc
      go unloading e = (already_unloading, ground arith)
      go unloaded e = (already_unloaded, ground arith)
      go unload_failed e = (already_failed, ground arith)

  begin_unload-IsOwned :
      (w : W) (s : System W B) → IsOwned w s → IsOwned w (taken_by s (begin_unload s.model))
  begin_unload-IsOwned w s o = elim (Bool-cases (is_serving s.model.lifecycle.phase)) [
    | inl h ↦
        let (p, k, f) = Owned-serving w s.model.lifecycle.phase _ _ h o in
        rw (begin_unload-serving w s.model p k)
          (refl, (outstanding_of s.model.handles s.model.lifecycle.active, refl))
    | inr h ↦ let (a, e) = begin_unload-other s.model h in rw e o
  ]

  end_unload-IsOwned :
      (w v : W) (ats : List ℕ) (r : Result (Unit {0}) Text) (cancelled left : ℕ)
      (m : LoadedModel W B)
      → Owned w m.lifecycle.phase m.lifecycle.worker (some (v, ats))
      → IsOwned w (record { model = (end_unload r cancelled left m).0; holder = none })
  unfolding end_unload
  end_unload-IsOwned w v ats (ok u) cancelled left m o =
      (Owned-holder w v ats m.lifecycle.phase _ o, refl)
  end_unload-IsOwned w v ats (err d) cancelled left m o =
      (Owned-holder w v ats m.lifecycle.phase _ o, refl)

  step-IsOwned : (w : W) (e : Event) (s : System W B) → IsOwned w s → IsOwned w (step e s)
  unfolding step with_handle
  step-IsOwned w begins s o = Keeps-Owned w s.model _ s.holder (begin-Keeps s.model) o
  step-IsOwned w (acts at p) s o = o
  step-IsOwned w counts s o = o
  step-IsOwned w (cancels id between) s o =
      Keeps-Owned w s.model _ s.holder (cancel_request-Keeps id between s.model) o
  step-IsOwned w unload_begins s o = begin_unload-IsOwned w s o
  step-IsOwned w unload_cancels s o = elim (Option-cases s.holder) [
    | inl h ↦ rw (h, step) o
    | inr ((v, ats), h) ↦
        rw (h, step) (Keeps-Owned w s.model _ s.holder (cancel_outstanding-Keeps ats s.model) o)
  ]
  step-IsOwned w (unload_ends r cancelled left) s o = elim (Option-cases s.holder) [
    | inl h ↦ rw (h, step) o
    | inr ((v, ats), h) ↦
        rw (h, step) (end_unload-IsOwned w v ats r cancelled left s.model (rw h at o))
  ]

  -- The worker of a loaded model has one owner at a time: from a state in which that is so, whatever
  -- calls run and however they interleave, it is the model's own while the model serves, that of the one call that began the
  -- teardown while that goes on, and nobody's once it has ended.
  pub run-IsOwned : (w : W) (es : List Event) (s : System W B) → IsOwned w s → IsOwned w (run es s)
  unfolding run
  run-IsOwned w [] s o = o
  run-IsOwned w (e ∷ es) s o = run-IsOwned w es (step e s) (step-IsOwned w e s o)

  -- After any history of calls that keeps to the owner of the worker, an unload goes ahead exactly
  -- when the model still serves: the answer that hands out the model's own worker and the active
  -- requests that have not ended, while no other call holds the worker, comes in that phase only.
  pub unload_proceeds :
      (w : W) (es : List Event) (s : System W B)
      → IsOwned w s
      → let t = run es s in
        (phase_of t ≡ serving) ↔ (
          (t.holder ≡ none)
          × ((begin_unload t.model).1
              ≡ proceeds w (outstanding_of t.model.handles t.model.lifecycle.active)))
  unload_proceeds w es s o = (forth, back)
    where
      forth :
          phase_of (run es s) ≡ serving
          → ((run es s).holder ≡ none)
            × ((begin_unload (run es s).model).1
                ≡ proceeds w
                    (outstanding_of (run es s).model.handles (run es s).model.lifecycle.active))
      forth p =
          let (_, k, f) = Owned-serving w _ _ _ (ap is_serving p) (run-IsOwned w es s o) in
          (f, ap (λ r. r.1) (begin_unload-serving w (run es s).model p k))

      back :
          ((run es s).holder ≡ none)
            × ((begin_unload (run es s).model).1
                ≡ proceeds w
                    (outstanding_of (run es s).model.handles (run es s).model.lifecycle.active))
          → phase_of (run es s) ≡ serving
      back (f, e) = elim (Bool-cases (is_serving (phase_of (run es s)))) [
        | inl h ↦ (Owned-serving w _ _ _ h (run-IsOwned w es s o)).0
        | inr h ↦ let (a, q) = begin_unload-other (run es s).model h in cc (ap (λ r. r.1) q)
      ]

  step-closed :
      (e : Event) (s : System W B)
      → is_serving (phase_of s) ≡ false
      → is_serving (phase_of (step e s)) ≡ false
  unfolding step with_handle end_unload
  step-closed begins s h = ap is_serving (begin-Keeps s.model).phase ∙ h
  step-closed (acts at p) s h = h
  step-closed counts s h = h
  step-closed (cancels id between) s h =
      ap is_serving (cancel_request-Keeps id between s.model).phase ∙ h
  step-closed unload_begins s h = let (a, e) = begin_unload-other s.model h in rw e h
  step-closed unload_cancels s h = elim (Option-cases s.holder) [
    | inl k ↦ rw (k, step) h
    | inr ((v, ats), k) ↦
        rw (k, step) (ap is_serving (cancel_outstanding-Keeps ats s.model).phase ∙ h)
  ]
  step-closed (unload_ends (ok u) cancelled left) s h = elim (Option-cases s.holder) [
    | inl k ↦ rw (k, step) h
    | inr ((v, ats), k) ↦ rw (k, step)
  ]
  step-closed (unload_ends (err d) cancelled left) s h = elim (Option-cases s.holder) [
    | inl k ↦ rw (k, step) h
    | inr ((v, ats), k) ↦ rw (k, step)
  ]

  run-closed :
      (es : List Event) (s : System W B)
      → is_serving (phase_of s) ≡ false
      → is_serving (phase_of (run es s)) ≡ false
  unfolding run
  run-closed [] s h = h
  run-closed (e ∷ es) s h = run-closed es (step e s) (step-closed e s h)

  -- Once a teardown has begun no request is ever admitted again: from a phase that is not serving,
  -- after any further calls, admission is refused under the phase of that moment, and nothing is
  -- registered.
  pub admission_closed :
      (es : List Event) (s : System W B)
      → is_serving (phase_of s) ≡ false
      → let m = (run es s).model in admit m ≡ (m, err (not_serving m.lifecycle.phase))
  unfolding admit
  admission_closed es s h = rw (run-closed es s h)
