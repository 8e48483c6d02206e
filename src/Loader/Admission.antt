-- ===== src/Loader/Admission.antt =====
-- loader.rs: what an admission and a count leave of the requests that the model has.
use mehoy_malloy_ai_runtime.Common.{
  ℕ, zero, suc, ◌≡◌, refl, sym, ◌≢◌, inl, inr, false, some, List, [], ◌∷◌, ◌++◌, arith, ◌==◌,
  ==_iff, Bool-cases, get_elem?, lookup, insert, lookup-insert,
}
use mehoy_malloy_ai_runtime.Cancel.{RequestHandle, new_handle}
use mehoy_malloy_ai_runtime.Instance.{is_usable}
use mehoy_malloy_ai_runtime.Loader.Model.{
  is_serving, LoadedModel, settled, retain_active, admit, active_requests,
}

retain_active-keeps :
    (hs : List RequestHandle) (m : List (ℕ × ℕ)) (id at : ℕ)
    → lookup id m ≡ some at
    → settled hs at ≡ false
    → lookup id (retain_active hs m) ≡ some at
unfolding lookup retain_active
retain_active-keeps hs [] id at h live = cc
retain_active-keeps hs ((j, w) ∷ m) id at h live = ground (arith, retain_active-keeps hs m id at)

get_elem?-append_live :
    (hs : List RequestHandle) (h : RequestHandle) (at : ℕ)
    → settled hs at ≡ false
    → get_elem? (hs ++ h ∷ []) at ≡ get_elem? hs at
get_elem?-append_live [] h at live = cc
get_elem?-append_live (k ∷ hs) h zero live = refl
get_elem?-append_live (k ∷ hs) h (suc at) live = get_elem?-append_live hs h at live

lookup-insert_next :
    (id next at new : ℕ) (m : List (ℕ × ℕ))
    → id ≢ next
    → lookup id m ≡ some at
    → lookup id (insert next new m) ≡ some at
lookup-insert_next id next at new m ne h = elim (Bool-cases (next == id)) [
  | inl e ↦ absurd (ne (sym ((==_iff next id).0 e)))
  | inr e ↦ rw (lookup-insert next id new m, e) h
]

module _ {W B : Type 0} where
  -- No admission and no count loses a request that has not ended: a request that the model finds
  -- under its identifier, and whose handle has not ended, is found there still after a count, and
  -- after an admission of another request under another identifier, whether it is granted or
  -- refused, and its handle is the one it was.
  pub admit_retains :
      (m : LoadedModel W B) (id at : ℕ)
      → lookup id m.lifecycle.active ≡ some at
      → settled m.handles at ≡ false
      → id ≢ m.next_request
      → (lookup id (active_requests m).0.lifecycle.active ≡ some at)
        × (lookup id (admit m).0.lifecycle.active ≡ some at)
        × (get_elem? (admit m).0.handles at ≡ get_elem? m.handles at)
  unfolding admit active_requests
  admit_retains m id at found live other =
      let kept = retain_active-keeps m.handles m.lifecycle.active id at found live in
      elim (Bool-cases (is_serving m.lifecycle.phase)) [
        | inl p ↦ elim (Bool-cases (is_usable m.instance_data.state)) [
          | inl u ↦
              rw (p, u, admit)
                (
                  kept,
                  lookup-insert_next id m.next_request at _
                      (retain_active m.handles m.lifecycle.active) other kept,
                  get_elem?-append_live m.handles (new_handle m.next_request) at live,
                )
          | inr u ↦ rw (p, u, admit) (kept, found, refl)
        ]
        | inr p ↦ rw (p, admit) (kept, found, refl)
      ]
