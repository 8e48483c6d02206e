-- ===== src/Loader/Stopping.antt =====
-- loader.rs: a teardown tells every outstanding request to stop, and its wait ends with the count of
-- those that have not.
use mehoy_malloy_ai_runtime.Common.{
  ℕ, zero, suc, ◌≡◌, refl, ◌⊎◌, inl, inr, Bool, true, false, ◌||◌, Option, none, some, List, [],
  ◌∷◌, arith, ◌==◌, ==_iff, ==_refl, Bool-cases, is_some, get_elem?,
}
use mehoy_malloy_ai_runtime.Cancel.{
  CancellationCause, instance_unloading, RequestHandle, request_cancellation,
}
use mehoy_malloy_ai_runtime.Loader.Model.{
  serving, unloading, LoadedModel, settled, settled_handle, apply_at, with_handle,
}
use mehoy_malloy_ai_runtime.Loader.Requests.{cause_of}
use mehoy_malloy_ai_runtime.Loader.Unloading.{
  proceeds, outstanding_of, begin_unload, cancel_outstanding,
}
use mehoy_malloy_ai_runtime.Loader.Ownership.{begin_unload-serving}

-- The request has ended, or it carries the cause for which it is to stop.
abbrev pub is_stopping : Option RequestHandle → Bool
is_stopping o = settled_handle o || is_some (cause_of o)

request_stops :
    (c : CancellationCause) (h : RequestHandle)
    → is_stopping (some (request_cancellation c h).0) ≡ true
unfolding request_cancellation
request_stops c h = ground arith

request_keeps :
    (c : CancellationCause) (h : RequestHandle)
    → is_stopping (some h) ≡ true
    → is_stopping (some (request_cancellation c h).0) ≡ true
request_keeps c h s = request_stops c h

apply_at-stops :
    (c : CancellationCause) (hs : List RequestHandle) (at : ℕ)
    → is_stopping (get_elem? (apply_at (λ h. (request_cancellation c h).0) hs at) at) ≡ true
apply_at-stops c [] at = refl
apply_at-stops c (h ∷ hs) zero = request_stops c h
apply_at-stops c (h ∷ hs) (suc at) = apply_at-stops c hs at

apply_at-keeps :
    (c : CancellationCause) (hs : List RequestHandle) (at k : ℕ)
    → is_stopping (get_elem? hs k) ≡ true
    → is_stopping (get_elem? (apply_at (λ h. (request_cancellation c h).0) hs at) k) ≡ true
apply_at-keeps c [] at k s = s
apply_at-keeps c (h ∷ hs) zero zero s = request_stops c h
apply_at-keeps c (h ∷ hs) zero (suc k) s = s
apply_at-keeps c (h ∷ hs) (suc at) zero s = s
apply_at-keeps c (h ∷ hs) (suc at) (suc k) s = apply_at-keeps c hs at k s

-- The place stands in the list.
abbrev Listed : ℕ → List ℕ → Type 0
Listed at [] = ⊥
Listed at (b ∷ bs) = ((b == at) ≡ true) ⊎ Listed at bs

module _ {W B : Type 0} where
  cancel_outstanding-keeps :
      (ats : List ℕ) (m : LoadedModel W B) (k : ℕ)
      → is_stopping (get_elem? m.handles k) ≡ true
      → is_stopping (get_elem? (cancel_outstanding ats m).handles k) ≡ true
  unfolding cancel_outstanding
  cancel_outstanding-keeps [] m k s = s
  cancel_outstanding-keeps (at ∷ ats) m k s =
      cancel_outstanding-keeps ats
        (with_handle (λ h. (request_cancellation instance_unloading h).0) at m) k
        (unfold with_handle in apply_at-keeps instance_unloading m.handles at k s)

  cancel_outstanding-stops :
      (ats : List ℕ) (m : LoadedModel W B) (k : ℕ)
      → Listed k ats
      → is_stopping (get_elem? (cancel_outstanding ats m).handles k) ≡ true
  unfolding cancel_outstanding
  cancel_outstanding-stops [] m k l = absurd l
  cancel_outstanding-stops (at ∷ ats) m k (inl e) =
      cancel_outstanding-keeps ats
        (with_handle (λ h. (request_cancellation instance_unloading h).0) at m) k
        (rw (← (==_iff at k).0 e)
          (unfold with_handle in apply_at-stops instance_unloading m.handles at))
  cancel_outstanding-stops (at ∷ ats) m k (inr l) =
      cancel_outstanding-stops ats
        (with_handle (λ h. (request_cancellation instance_unloading h).0) at m) k l

abbrev AreCovered : List RequestHandle → List ℕ → List (ℕ × ℕ) → Type 0
AreCovered hs ats [] = Unit {0}
AreCovered hs ats ((id, at) ∷ m) = ((settled hs at ≡ true) ⊎ Listed at ats) × AreCovered hs ats m

AreCovered-more :
    (hs : List RequestHandle) (at : ℕ) (ats : List ℕ) (m : List (ℕ × ℕ))
    → AreCovered hs ats m
    → AreCovered hs (at ∷ ats) m
AreCovered-more hs at ats [] c = tt
AreCovered-more hs at ats ((id, k) ∷ m) (inl s, c) = (inl s, AreCovered-more hs at ats m c)
AreCovered-more hs at ats ((id, k) ∷ m) (inr l, c) = (inr (inr l), AreCovered-more hs at ats m c)

outstanding_of-settled :
    (hs : List RequestHandle) (id at : ℕ) (m : List (ℕ × ℕ))
    → settled hs at ≡ true
    → outstanding_of hs ((id, at) ∷ m) ≡ outstanding_of hs m
unfolding outstanding_of
outstanding_of-settled hs id at m s = rw s refl

outstanding_of-open :
    (hs : List RequestHandle) (id at : ℕ) (m : List (ℕ × ℕ))
    → settled hs at ≡ false
    → outstanding_of hs ((id, at) ∷ m) ≡ at ∷ outstanding_of hs m
unfolding outstanding_of
outstanding_of-open hs id at m s = rw s refl

AreCovered-along :
    (hs : List RequestHandle) (ats bs : List ℕ) (m : List (ℕ × ℕ))
    → bs ≡ ats
    → AreCovered hs ats m
    → AreCovered hs bs m
AreCovered-along hs ats bs m e c = rw e c

outstanding_of-AreCovered :
    (hs : List RequestHandle) (m : List (ℕ × ℕ)) → AreCovered hs (outstanding_of hs m) m
outstanding_of-AreCovered hs [] = tt
outstanding_of-AreCovered hs ((id, at) ∷ m) = elim (Bool-cases (settled hs at)) [
  | inl s ↦
      AreCovered-along hs (outstanding_of hs m) (outstanding_of hs ((id, at) ∷ m)) ((id, at) ∷ m)
        (outstanding_of-settled hs id at m s) (inl s, outstanding_of-AreCovered hs m)
  | inr s ↦
      AreCovered-along hs (at ∷ outstanding_of hs m) (outstanding_of hs ((id, at) ∷ m))
        ((id, at) ∷ m) (outstanding_of-open hs id at m s)
        (
          inr (inl (==_refl at)),
          AreCovered-more hs at (outstanding_of hs m) m (outstanding_of-AreCovered hs m),
        )
]

-- Every request of a map of active requests is stopping.
abbrev pub AreStopping : List RequestHandle → List (ℕ × ℕ) → Type 0
AreStopping hs [] = Unit {0}
AreStopping hs ((id, at) ∷ m) = (is_stopping (get_elem? hs at) ≡ true) × AreStopping hs m

module _ {W B : Type 0} where
  AreCovered-AreStopping :
      (m : LoadedModel W B) (ats : List ℕ) (active : List (ℕ × ℕ))
      → AreCovered m.handles ats active
      → AreStopping (cancel_outstanding ats m).handles active
  AreCovered-AreStopping m ats [] c = tt
  AreCovered-AreStopping m ats ((id, at) ∷ active) (inl s, c) =
      (cancel_outstanding-keeps ats m at (rw s), AreCovered-AreStopping m ats active c)
  AreCovered-AreStopping m ats ((id, at) ∷ active) (inr l, c) =
      (cancel_outstanding-stops ats m at l, AreCovered-AreStopping m ats active c)

  -- A teardown leaves no request behind: when an unload of a serving model that has its worker has
  -- cancelled the requests that it found outstanding, every active request of the model has ended
  -- or carries the cause for which it is to stop.
  pub unload_stops_all :
      (w : W) (m : LoadedModel W B)
      → m.lifecycle.phase ≡ serving
      → m.lifecycle.worker ≡ some w
      → (m1 : LoadedModel W B) × (ats : List ℕ) × (begin_unload m ≡ (m1, proceeds w ats))
        × (m1.lifecycle.phase ≡ unloading)
        × AreStopping (cancel_outstanding ats m1).handles m.lifecycle.active
  unload_stops_all w m p k =
      let ats = outstanding_of m.handles m.lifecycle.active in
      let m1 : LoadedModel W B = record m {
        lifecycle = record { phase = unloading; active = m.lifecycle.active; worker = none };
      } in
      (
        m1,
        ats,
        begin_unload-serving w m p k,
        refl,
        AreCovered-AreStopping m1 ats m.lifecycle.active
            (outstanding_of-AreCovered m.handles m.lifecycle.active),
      )
