-- ===== src/Ledger/Accounting.antt =====
-- runtime.rs: what one load claims, what its end gives back, and that identifiers of claims in
-- flight are distinct.
use mehoy_malloy_ai_runtime.Common.Words.{u64_mod, saturating_add}
use mehoy_malloy_ai_runtime.Resources.{ResourceFootprint, ResidentLimits, admits}
use mehoy_malloy_ai_runtime.Ledger.{
  Resident, Ledger, values, committed, reserve, fulfil, release, forget, Event, reserves, fulfils,
  releases, forgets, after, step, run, empty_ledger, already_released,
}
use mehoy_malloy_ai_runtime.Ledger.Totals.{
  total, total_weight, committed-weight_bytes, committed-instances, committed-loading,
  total-insert_new, footprints-insert_new,
}
use mehoy_malloy_ai_runtime.Common.{
  ℕ, suc, ◌+◌, ◌≤◌, ◌<◌, ◌≡◌, refl, sym, ap, ◌∙◌, ◌≢◌, ◌==◌, inl, inr, none, some, List, [], ◌∷◌,
  arith, ==_iff, Bool-cases, Option-cases, ok, err, Result-cases, is_some, length, lookup, insert,
  remove, lookup-insert, lookup-remove, lookup-insert_self, lookup-remove_self, length-insert_new,
  remove_absent, remove-insert_new,
}

-- Every key of the claims in flight was allocated: it is at most the counter.
abbrev pub KeysBelow {ℓ} : {V : Type ℓ} → ℕ → List (ℕ × V) → Type 0
KeysBelow n [] = Unit {0}
KeysBelow n ((j, v) ∷ m) = (j ≤ n) × KeysBelow n m

-- No key stands twice.
abbrev pub DistinctKeys {ℓ} : {V : Type ℓ} → List (ℕ × V) → Type ℓ
DistinctKeys [] = Unit
DistinctKeys ((j, v) ∷ m) = (lookup j m ≡ none) × DistinctKeys m

module _ {ℓ} {V : Type ℓ} where
  KeysBelow-mono : (n n' : ℕ) (m : List (ℕ × V)) → n ≤ n' → KeysBelow n m → KeysBelow n' m
  KeysBelow-mono n n' [] h k = tt
  KeysBelow-mono n n' ((j, v) ∷ m) h k = (omega arith, KeysBelow-mono n n' m h k.1)

  lookup_above : (n k : ℕ) (m : List (ℕ × V)) → n < k → KeysBelow n m → lookup k m ≡ none
  unfolding lookup
  lookup_above n k [] h b = refl
  lookup_above n k ((j, v) ∷ m) h b = ground (arith, lookup_above n k m h b.1)

  KeysBelow-insert :
      (n k : ℕ) (v : V) (m : List (ℕ × V)) → k ≤ n → KeysBelow n m → KeysBelow n (insert k v m)
  unfolding insert
  KeysBelow-insert n k v [] h b = (h, tt)
  KeysBelow-insert n k v ((j, w) ∷ m) h b = ground (arith, KeysBelow-insert n k v m h b.1)

  KeysBelow-remove : (n k : ℕ) (m : List (ℕ × V)) → KeysBelow n m → KeysBelow n (remove k m)
  unfolding remove
  KeysBelow-remove n k [] b = tt
  KeysBelow-remove n k ((j, w) ∷ m) b = ground (arith, KeysBelow-remove n k m b.1)

  DistinctKeys-insert :
      (k : ℕ) (v : V) (m : List (ℕ × V)) → DistinctKeys m → DistinctKeys (insert k v m)
  unfolding insert lookup
  DistinctKeys-insert k v [] d = (refl, tt)
  DistinctKeys-insert k v ((j, w) ∷ m) d =
      ground (arith, DistinctKeys-insert k v m d.1, lookup-insert k j v m, ==_iff j k)

  DistinctKeys-remove : (k : ℕ) (m : List (ℕ × V)) → DistinctKeys m → DistinctKeys (remove k m)
  unfolding remove lookup
  DistinctKeys-remove k [] d = tt
  DistinctKeys-remove k ((j, w) ∷ m) d =
      ground (arith, DistinctKeys-remove k m d.1, lookup-remove k j m)

lookup-insert_other :
    (k other : ℕ) (f : ResourceFootprint) (m : List (ℕ × ResourceFootprint))
    → other ≢ k
    → lookup other (insert k f m) ≡ lookup other m
lookup-insert_other k other f m ne = elim (Bool-cases (k == other)) [
  | inl e ↦ absurd (ne (sym ((==_iff k other).0 e)))
  | inr e ↦ rw (lookup-insert k other f m, e) refl
]

-- With distinct keys, removing a claim gives back its weight exactly, and one entry.
remove_exact :
    (k : ℕ) (f : ResourceFootprint) (m : List (ℕ × ResourceFootprint))
    → DistinctKeys m
    → lookup k m ≡ some f
    → (total (values (remove k m)) + f.weight_bytes ≡ total (values m))
      × (length (remove k m) + 1 ≡ length m)
unfolding remove lookup
remove_exact k f [] d h = cc
remove_exact k f ((j, g) ∷ m) d h =
    ground (arith, remove_exact k f m d.1, remove_absent k m, ==_iff j k)

module _ {M : Type 0} where
  pub record IsTidy (l : Ledger M) : Type 0 where
    pub below : KeysBelow l.next_reservation l.pending
    pub distinct : DistinctKeys l.pending
    pub distinct_resident : DistinctKeys l.resident

  reserve-eq-ok :
      (limits : ResidentLimits) (f : ResourceFootprint) (l l' : Ledger M) (id : ℕ)
      → reserve limits f l ≡ ok (l', id)
      → l.next_reservation + 1 < u64_mod
      → (id ≡ l.next_reservation + 1)
        × (l' ≡ record l { pending = insert id f l.pending; next_reservation = id })
  unfolding reserve
  reserve-eq-ok limits f l l' id e h = elim (Result-cases (admits limits (committed l) f)) [
    | inl (_, a) ↦ ground arith
    | inr (r, a) ↦ ground arith
  ]

  -- A granted reservation claims exactly one more load in flight and exactly the bytes of the
  -- footprint, and touches no resident model, in a tidy ledger before its counter wraps.
  pub reserve_claims :
      (limits : ResidentLimits) (f : ResourceFootprint) (l l' : Ledger M) (id : ℕ)
      → IsTidy l
      → l.next_reservation + 1 < u64_mod
      → reserve limits f l ≡ ok (l', id)
      → (lookup id l'.pending ≡ some f)
        × (length l'.pending ≡ length l.pending + 1)
        × (total_weight l' ≡ total_weight l + f.weight_bytes)
        × (l'.resident ≡ l.resident)
  reserve_claims limits f l l' id t h e =
      let (i, p) = reserve-eq-ok limits f l l' id e h in
      let fresh = lookup_above l.next_reservation id l.pending (omega arith) t.below in
      rw p (
        lookup-insert_self id f l.pending,
        length-insert_new id f l.pending fresh,
        omega (arith, total-insert_new id f l.pending fresh),
        refl,
      )

  -- A load that fails leaves nothing committed: releasing the claim that a reservation made gives
  -- the ledger from before it back, but for the counter, and so the same usage, in a tidy ledger
  -- before its counter wraps.
  pub release_restores :
      (limits : ResidentLimits) (f : ResourceFootprint) (l l' : Ledger M) (id : ℕ)
      → IsTidy l
      → l.next_reservation + 1 < u64_mod
      → reserve limits f l ≡ ok (l', id)
      → (release id l' ≡ record l { next_reservation = id })
        × (committed (release id l') ≡ committed l)
  unfolding release committed
  release_restores limits f l l' id t h e =
      let (i, p) = reserve-eq-ok limits f l l' id e h in
      let fresh = lookup_above l.next_reservation id l.pending (omega arith) t.below in
      let back = remove-insert_new id f l.pending fresh in rw (p, back) (refl, refl)

  -- A fulfilled claim moves from loading to resident: the number of instances and the weight
  -- committed stay what they were, one load fewer is in flight, and the identifier now resolves to
  -- the model under the footprint that was claimed. It holds in a tidy ledger,
  -- for a claim in flight and an identifier that is not resident yet.
  pub fulfil_moves :
      (id instance_id : ℕ) (model : M) (l : Ledger M) (f : ResourceFootprint)
      → IsTidy l
      → lookup id l.pending ≡ some f
      → lookup instance_id l.resident ≡ none
      → let (l', r) = fulfil id instance_id model l in
        (r ≡ ok instance_id)
        × ((committed l').instances ≡ (committed l).instances)
        × ((committed l').weight_bytes ≡ (committed l).weight_bytes)
        × ((committed l').loading + 1 ≡ (committed l).loading)
        × (lookup instance_id l'.resident ≡ some (record { model = model; footprint = f }))
        × (lookup id l'.pending ≡ none)
  unfolding fulfil
  fulfil_moves id instance_id model l f t e free =
      let entry : Resident M = record { model = model; footprint = f } in
      let l' : Ledger M = record l {
        pending = remove id l.pending;
        resident = insert instance_id entry l.resident;
      } in
      let gone = remove_exact id f l.pending t.distinct e in
      let come = length-insert_new instance_id entry l.resident free in
      rw (e, fulfil)
        (rw free (
          refl,
          rw (committed-instances l, committed-instances l')
              (same_instances (omega (arith, gone.1)) (omega (arith, come))),
          rw (committed-weight_bytes l, committed-weight_bytes l')
              (omega (arith, gone.0, footprints-insert_new instance_id entry l.resident free)),
          rw (committed-loading l, committed-loading l') gone.1,
          lookup-insert_self instance_id entry l.resident,
          lookup-remove_self id l.pending,
        ))
    where
      same_instances :
          {a a' b b' : ℕ} → suc a' ≡ a → b' ≡ suc b → saturating_add a' b' ≡ saturating_add a b
      same_instances p q = ground arith

  fulfil_absent :
      (id i : ℕ) (a : M) (l : Ledger M)
      → lookup id l.pending ≡ none
      → fulfil id i a l ≡ (l, err already_released)
  unfolding fulfil
  fulfil_absent id i a l e = rw (e, fulfil)

  pub fulfil_clears :
      (id i : ℕ) (a : M) (l : Ledger M) → lookup id (fulfil id i a l).0.pending ≡ none
  unfolding fulfil
  fulfil_clears id i a l =
      let gone = lookup-remove_self id l.pending in
      elim (Option-cases (lookup id l.pending)) [
        | inl e ↦ rw (e, fulfil) e
        | inr (f, e) ↦ rw (e, fulfil) (ground (arith, gone))
      ]

  -- A claim is settled once: after a `fulfil` under it, whether it was taken or handed back, a
  -- second `fulfil` under the same claim changes nothing and hands its model back.
  pub fulfil_twice :
      (id i j : ℕ) (a b : M) (l : Ledger M)
      → fulfil id j b (fulfil id i a l).0 ≡ ((fulfil id i a l).0, err already_released)
  fulfil_twice id i j a b l = fulfil_absent id j b _ (fulfil_clears id i a l)

  fulfil-IsTidy : (id i : ℕ) (a : M) (l : Ledger M) → IsTidy l → IsTidy (fulfil id i a l).0
  unfolding fulfil
  fulfil-IsTidy id i a l t =
      let b = KeysBelow-remove l.next_reservation id l.pending t.below in
      let d = DistinctKeys-remove id l.pending t.distinct in
      elim (Option-cases (lookup id l.pending)) [
        | inl e ↦ rw (e, fulfil) t
        | inr (f, e) ↦ elim (Bool-cases (is_some (lookup i l.resident))) [
          | inl taken ↦
              rw (e, fulfil, taken)
                (record { below = b; distinct = d; distinct_resident = t.distinct_resident })
          | inr free ↦
              rw (e, fulfil, free)
                (record {
                  below = b;
                  distinct = d;
                  distinct_resident =
                      DistinctKeys-insert i (record { model = a; footprint = f }) l.resident
                        t.distinct_resident;
                })
        ]
      ]

  fulfil-next_reservation :
      (id i : ℕ) (a : M) (l : Ledger M) → (fulfil id i a l).0.next_reservation ≡ l.next_reservation
  unfolding fulfil
  fulfil-next_reservation id i a l = ground arith

  step-IsTidy :
      (limits : ResidentLimits) (e : Event M) (l : Ledger M)
      → l.next_reservation + 1 < u64_mod
      → IsTidy l
      → IsTidy (step limits e l) × ((step limits e l).next_reservation ≤ l.next_reservation + 1)
  unfolding step release forget
  step-IsTidy limits (reserves f) l h t = elim (Result-cases (reserve limits f l)) [
    | inl ((l', id), e) ↦
        let (i, p) = reserve-eq-ok limits f l l' id e h in
        rw (e, after)
          (rw p (
            record {
              below =
                  KeysBelow-insert id id f l.pending (omega arith)
                    (KeysBelow-mono l.next_reservation id l.pending (omega arith) t.below);
              distinct = DistinctKeys-insert id f l.pending t.distinct;
              distinct_resident = t.distinct_resident;
            },
            omega arith,
          ))
    | inr (r, e) ↦ rw (e, after) (t, omega arith)
  ]
  step-IsTidy limits (fulfils id i a) l h t =
      (fulfil-IsTidy id i a l t, omega (arith, fulfil-next_reservation id i a l))
  step-IsTidy limits (releases id) l h t = (
    record {
      below = KeysBelow-remove l.next_reservation id l.pending t.below;
      distinct = DistinctKeys-remove id l.pending t.distinct;
      distinct_resident = t.distinct_resident;
    },
    omega arith,
  )
  step-IsTidy limits (forgets i) l h t = (
    record {
      below = t.below;
      distinct = t.distinct;
      distinct_resident = DistinctKeys-remove i l.resident t.distinct_resident;
    },
    omega arith,
  )

  run-IsTidy :
      (limits : ResidentLimits) (es : List (Event M)) (l : Ledger M)
      → l.next_reservation + length es < u64_mod
      → IsTidy l
      → IsTidy (run limits es l)
        × ((run limits es l).next_reservation ≤ l.next_reservation + length es)
  unfolding run
  run-IsTidy limits [] l h t = (t, omega arith)
  run-IsTidy limits (e ∷ es) l h t =
      let (t', n) = step-IsTidy limits e l (omega arith) t in
      let (t'', n') = run-IsTidy limits es (step limits e l) (omega arith) t' in (t'', omega arith)

  -- A reservation that is granted after any history of the ledger, as long as fewer than 2 ^ 64
  -- critical sections have run, is a claim of its own: its identifier was not in flight, it now
  -- resolves to the footprint asked for, every other claim in flight is as it was, and exactly one
  -- load and exactly the bytes of the footprint are added, with no resident model touched.
  pub reserve-run :
      (limits : ResidentLimits) (es : List (Event M)) (f : ResourceFootprint) (l' : Ledger M)
      (id : ℕ)
      → length es + 1 < u64_mod
      → reserve limits f (run limits es empty_ledger) ≡ ok (l', id)
      → let l : Ledger M = run limits es empty_ledger in
        (lookup id l.pending ≡ none)
        × (lookup id l'.pending ≡ some f)
        × ((other : ℕ) → other ≢ id → lookup other l'.pending ≡ lookup other l.pending)
        × (length l'.pending ≡ length l.pending + 1)
        × (total_weight l' ≡ total_weight l + f.weight_bytes)
        × (l'.resident ≡ l.resident)
  unfolding empty_ledger
  reserve-run limits es f l' id h e =
      let (tidy, few) =
        run-IsTidy limits es empty_ledger (omega arith)
          (record { below = tt; distinct = tt; distinct_resident = tt }) in
      let l : Ledger M = run limits es empty_ledger in
      let (i, p) = reserve-eq-ok limits f l l' id e (omega arith) in
      let (a, b, c, d) = reserve_claims limits f l l' id tidy (omega arith) e in
      (
        lookup_above l.next_reservation id l.pending (omega arith) tidy.below,
        a,
        λ other ne.
            ap (λ x. lookup other x.pending) p ∙ lookup-insert_other id other f l.pending ne,
        b,
        c,
        d,
      )
