-- ===== src/Daemon/Serving.antt =====
-- server.rs: which rounds end the daemon's serving, how, and what becomes of the connections.
use mehoy_malloy_ai_runtime.Common.{
  ℕ, zero, suc, ◌+◌, ◌≡◌, refl, sym, ap, ◌∙◌, ◌⊎◌, inl, inr, Bool, true, false, ◌&&◌, List, [], ◌∷◌,
  ◌++◌, arith, ok, err,
}
use mehoy_malloy_ai_runtime.Daemon.{
  ErrorKind, connection_aborted, connection_reset, interrupted, broken_pipe, another, is_transient,
  ServeEvent, asked_to_stop, accepted, finished, accept_failed, Served, nothing_served, take,
  join_next, drain_connections, Stopped, still_serving, returned, serve,
}

-- The loop has aborted no connection: each that it took is open or has ended.
record IsOpen (s : Served) : Type 0 where
  sums : s.taken ≡ s.running + s.ended
  none_aborted : s.aborted ≡ 0
  none_told : s.told_to_abort ≡ 0

join_next-IsOpen :
    (n : ℕ) (s : Served)
    → s.running ≡ n
    → IsOpen s
    → IsOpen (join_next n s) × ((join_next n s).taken ≡ s.taken)
join_next-IsOpen zero s e a = (a, refl)
join_next-IsOpen (suc n) s e a = (
  record { sums = a.sums ∙ omega arith; none_aborted = a.none_aborted; none_told = a.none_told },
  refl,
)

-- A drain leaves no connection of the set: each has ended or was aborted.
drain_connections_lem :
    (in_time : ℕ) (s : Served)
    → IsOpen s
    → let r = drain_connections in_time s in
      (r.taken ≡ s.taken)
      × (r.taken ≡ r.ended + r.aborted)
      × (r.running ≡ 0)
      × (r.told_to_abort ≡ 0)
unfolding drain_connections
drain_connections_lem zero s a =
    (refl, a.sums ∙ (let b = a.none_aborted in omega arith), refl, a.none_told)
drain_connections_lem (suc more) s a =
    let (a', e) = join_next-IsOpen s.running s refl a in
    let (b, sums, none_open, told) = drain_connections_lem more (join_next s.running s) a' in
    (b ∙ e, sums, none_open, told)

-- Rounds after which the loop goes on: no request to stop, and no error that is not transient.
abbrev pub goes_on : List ServeEvent → Bool
goes_on [] = true
goes_on (asked_to_stop ∷ events) = false
goes_on (accept_failed kind ∷ events) = is_transient kind && goes_on events
goes_on (event ∷ events) = goes_on events

-- How many connections the rounds bring.
abbrev pub accepts : List ServeEvent → ℕ
accepts [] = 0
accepts (accepted ∷ events) = suc (accepts events)
accepts (event ∷ events) = accepts events

-- How serving that began with `taken` connections stands behind its rounds: it goes on; or the first
-- round that ends it asked it to stop; or that round failed with an error that is not transient.
abbrev pub EndsAs : ℕ → List ServeEvent → Served × Stopped → Type 0
EndsAs taken events r =
    ((goes_on events ≡ true)
      × (r.1 ≡ still_serving)
      × (r.0.taken ≡ taken + accepts events)
      × (r.0.taken ≡ r.0.running + r.0.ended))
    ⊎ ((before : List ServeEvent) × (after : List ServeEvent) × (events
          ≡ before ++ (asked_to_stop ∷ after))
        × (goes_on before ≡ true)
        × (r.1 ≡ returned (ok tt))
        × (r.0.taken ≡ taken + accepts before)
        × (r.0.taken ≡ r.0.ended + r.0.aborted))
    ⊎ ((before : List ServeEvent) × (after : List ServeEvent) × (kind : ErrorKind) × (events
          ≡ before ++ (accept_failed kind ∷ after))
        × (goes_on before ≡ true)
        × (is_transient kind ≡ false)
        × (r.1 ≡ returned (err kind))
        × (r.0.taken ≡ taken + accepts before)
        × (r.0.taken ≡ r.0.ended + r.0.told_to_abort))

-- A round that does not end serving may stand before the others.
EndsAs-later :
    (taken more : ℕ) (event : ServeEvent) (events : List ServeEvent) (r : Served × Stopped)
    → ((rest : List ServeEvent) → goes_on (event ∷ rest) ≡ goes_on rest)
    → ((rest : List ServeEvent) → taken + accepts (event ∷ rest) ≡ more + accepts rest)
    → EndsAs more events r
    → EndsAs taken (event ∷ events) r
EndsAs-later taken more event events r on count (inl (a, b, c, d)) =
    inl (on events ∙ a, b, rw (count events) c, d)
EndsAs-later taken more event events r on count (inr (inl (before, after, e, a, b, c, d))) =
    inr
      (inl (event ∷ before, after, ap (λ l. event ∷ l) e, on before ∙ a, b, rw (count before) c, d))
EndsAs-later taken more event events r on count (inr (inr (before, after, k, e, a, t, b, c, d))) =
    inr (
      inr (
        event ∷ before,
        after,
        k,
        ap (λ l. event ∷ l) e,
        on before ∙ a,
        t,
        b,
        rw (count before) c,
        d,
      ))

plus_zero : (n : ℕ) → n ≡ n + 0
plus_zero n = omega arith

serve_from :
    (in_time : ℕ) (events : List ServeEvent) (s : Served)
    → IsOpen s
    → EndsAs s.taken events (serve in_time events s)
unfolding serve
serve_from in_time [] s a = inl (refl, refl, plus_zero s.taken, a.sums)
serve_from in_time (asked_to_stop ∷ events) s a =
    let (e, sums, _, _) = drain_connections_lem in_time s a in
    inr (inl ([], events, refl, refl, refl, e ∙ plus_zero s.taken, sums))
serve_from in_time (accepted ∷ events) s a =
    EndsAs-later s.taken (suc s.taken) accepted events _ (λ rest. refl) (λ rest. omega arith)
      (serve_from in_time events (take s) (record {
        sums = ap suc a.sums ∙ omega arith;
        none_aborted = a.none_aborted;
        none_told = a.none_told;
      }))
serve_from in_time (finished ∷ events) s a =
    let (a', e) = join_next-IsOpen s.running s refl a in
    EndsAs-later s.taken (join_next s.running s).taken finished events _ (λ rest. refl)
      (λ rest. ap (λ n. n + accepts rest) (sym e))
      (serve_from in_time events (join_next s.running s) a')
serve_from in_time (accept_failed another ∷ events) s a = inr (
    inr (
      [],
      events,
      another,
      refl,
      refl,
      refl,
      refl,
      plus_zero s.taken,
      a.sums ∙ (let b = a.none_told in omega arith),
    ))
serve_from in_time (accept_failed connection_aborted ∷ events) s a =
    EndsAs-later s.taken s.taken (accept_failed connection_aborted) events _ (λ rest. refl)
      (λ rest. refl) (serve_from in_time events s a)
serve_from in_time (accept_failed connection_reset ∷ events) s a =
    EndsAs-later s.taken s.taken (accept_failed connection_reset) events _ (λ rest. refl)
      (λ rest. refl) (serve_from in_time events s a)
serve_from in_time (accept_failed interrupted ∷ events) s a =
    EndsAs-later s.taken s.taken (accept_failed interrupted) events _ (λ rest. refl) (λ rest. refl)
      (serve_from in_time events s a)
serve_from in_time (accept_failed broken_pipe ∷ events) s a =
    EndsAs-later s.taken s.taken (accept_failed broken_pipe) events _ (λ rest. refl) (λ rest. refl)
      (serve_from in_time events s a)

-- The daemon serves until it is asked to stop or accepting fails with an error that is not
-- transient, whichever its rounds bring first, and no other round ends it. As long as neither has
-- come, it has taken every connection that was accepted, and each is open or has ended. Once it was
-- asked to stop, it answers that it ended well, and each connection it took before has ended or was
-- aborted. On the error it answers that error, and each connection has ended or was told to abort.
pub serve-EndsAs :
    (in_time : ℕ) (events : List ServeEvent) → EndsAs 0 events (serve in_time events nothing_served)
serve-EndsAs in_time events =
    serve_from in_time events nothing_served
      (record { sums = refl; none_aborted = refl; none_told = refl })
