-- ===== src/Submit/Dispatch/Rounds.antt =====
-- Dispatching what is pending, in rounds over the sessions: internal/daemon/runtime.go.
use mathlib.Core.List.{Memᴰ}
use mathlib.Core.List.Memᴰ
use tmux_a2a_postman.Base.{
  ◌∙◌, ℕ, zero, suc, ◌<◌, ◌≤◌, true, false, Option, some, Text, List, [], ◌∷◌, length, arith, ◌≡◌,
  refl, inl, inr, ap, sym, subst, ◌⊎◌,
}
use tmux_a2a_postman.Submit.Dispatch.{
  Dispatcher, Reader, dispatch_daemon_submit_request, dispatched, deferred, saturated, SessionTry,
  try_session, Round, run_round, dispatch_pending, daemon_submit_dispatch_key,
}
use tmux_a2a_postman.Submit.Dispatch.Steps.{
  Reachable, after, dispatching, in_flight, reachable-Exclusive,
}
use tmux_a2a_postman.Submit.Dispatch.Serving.{IsServed, Keeps}
use tmux_a2a_postman.Submit.Dispatch.Coverage.{
  total_pending, IsPending, none_pending, DispatchStatus-cases, run_round-IsCovered,
}

module _ (read : Reader) (limit : ℕ) where
  -- a request was dispatched, the workers ran out, or all requests were deferred
  abbrev IsTried : List Text → SessionTry → Type 0
  IsTried ps t =
      Reachable limit t.state
      × (((t.status ≡ dispatched) × (length t.rest < length ps))
          ⊎ ((t.status ≡ saturated) ⊎ ((t.status ≡ deferred) × (t.rest ≡ []))))

  try_session-IsTried :
      (ps : List Text) (s : Dispatcher) → Reachable limit s → IsTried ps (try_session read ps s)
  unfolding try_session
  try_session-IsTried [] s r = (r, inr (inr (refl, refl)))
  try_session-IsTried (p ∷ ps) s r =
      let d = dispatch_daemon_submit_request read p s in
      let r' : Reachable limit d.1 = after r (dispatching read p s) in
      elim (DispatchStatus-cases d.0) [
        | inl e ↦
            let same : try_session read (p ∷ ps) s
                ≡ record { status = dispatched; rest = ps; state = d.1 } =
              ground (arith, e) in
            subst (IsTried (p ∷ ps)) (sym same) (r', inl (refl, omega arith))
        | inr (inl e) ↦
            let same : try_session read (p ∷ ps) s
                ≡ record { status = saturated; rest = ps; state = d.1 } =
              ground (arith, e) in
            subst (IsTried (p ∷ ps)) (sym same) (r', inr (inl refl))
        | inr (inr e) ↦
            let same : try_session read (p ∷ ps) s ≡ try_session read ps d.1 = ground (arith, e) in
            let (r'', h) = try_session-IsTried ps d.1 r' in
            subst (IsTried (p ∷ ps)) (sym same)
              (r'', elim h [ inl (e', less) ↦ inl (e', omega (arith, less)) | inr rest ↦ inr rest ])
      ]

  -- The round ended early, or something was dispatched and less is left, or nothing is left.
  abbrev IsRound : List (List Text) → Round → Type 0
  IsRound sessions r =
      Reachable limit r.state
      × ((r.is_saturated ≡ true)
          ⊎ (((r.dispatched_in_round ≡ true) × (total_pending r.pending < total_pending sessions))
              ⊎ ((r.dispatched_in_round ≡ false) × (total_pending r.pending ≡ 0))))

  run_round-IsRound :
      (sessions : List (List Text)) (s : Dispatcher)
      → Reachable limit s
      → IsRound sessions (run_round read sessions s)
  unfolding run_round total_pending
  run_round-IsRound [] s r = (r, inr (inr (refl, refl)))
  run_round-IsRound (ps ∷ sessions) s r =
      let t = try_session read ps s in
      let (r', h) = try_session-IsTried ps s r in
      let later = run_round read sessions t.state in
      let (r'', g) = run_round-IsRound sessions t.state r' in
      elim h [
        | inl (e, fewer) ↦
            let x : Round = record later {
              dispatched_in_round = true;
              pending = t.rest ∷ later.pending;
            } in
            let same : run_round read (ps ∷ sessions) s ≡ x = ground (arith, e) in
            subst (IsRound (ps ∷ sessions)) (sym same) (
              r'',
              elim g [
                | inl full ↦ inl full
                | inr (inl (some_dispatched, less)) ↦ inr (inl (refl, omega (arith, fewer, less)))
                | inr (inr (none_dispatched, none_left)) ↦
                    inr (inl (refl, omega (arith, fewer, none_left)))
              ],
            )
        | inr (inl e) ↦
            let x : Round = record {
              is_saturated = true;
              dispatched_in_round = false;
              pending = t.rest ∷ sessions;
              state = t.state;
            } in
            let same : run_round read (ps ∷ sessions) s ≡ x = ground (arith, e) in
            subst (IsRound (ps ∷ sessions)) (sym same) (r', inl refl)
        | inr (inr (e, nothing)) ↦
            let x : Round = record later { pending = t.rest ∷ later.pending } in
            let same : run_round read (ps ∷ sessions) s ≡ x = ground (arith, e) in
            let none_here : length t.rest ≡ 0 = ap length nothing in
            subst (IsRound (ps ∷ sessions)) (sym same) (
              r'',
              elim g [
                | inl full ↦ inl full
                | inr (inl (some_dispatched, less)) ↦
                    inr (inl (some_dispatched, omega (arith, none_here, less)))
                | inr (inr (none_dispatched, none_left)) ↦
                    inr (inr (none_dispatched, omega (arith, none_here, none_left)))
              ],
            )
      ]

  -- The state is reached by dispatches; the workers ran out, or every request that was pending is
  -- served.
  abbrev IsCoveredEnd : List (List Text) → Dispatcher → Option Round → Type 0
  IsCoveredEnd sessions s o =
      (r : Round) × (o ≡ some r)
      × Reachable limit r.state
      × Keeps read s r.state
      × (((r.is_saturated ≡ true) × (r.state.limit ≤ r.state.tokens))
          ⊎ ((q : Text) → IsPending q sessions → IsServed read r.state q))

  dispatch_pending-IsServed :
      (fuel : ℕ) (sessions : List (List Text)) (s : Dispatcher)
      → Reachable limit s
      → total_pending sessions < fuel
      → IsCoveredEnd sessions s (dispatch_pending read fuel sessions s)
  unfolding dispatch_pending
  dispatch_pending-IsServed zero sessions s r h = absurd (omega arith)
  dispatch_pending-IsServed (suc fuel) sessions s r h =
      let x = run_round read sessions s in
      let (r', g) = run_round-IsRound sessions s r in
      let (keeps, c) = run_round-IsCovered read sessions s in
      elim c [
        | inl (full, no_token) ↦ (x, ground (arith, full), r', keeps, inl (full, no_token))
        | inr (free, covered) ↦ elim g [
          | inl full ↦ absurd (ground (arith, free, full))
          | inr (inl (more, less)) ↦
              let same : dispatch_pending read (suc fuel) sessions s
                  ≡ dispatch_pending read fuel x.pending x.state =
                ground (arith, free, more) in
              let (y, e, reached, later, ending) =
                dispatch_pending-IsServed fuel x.pending x.state r' (omega (arith, less, h)) in
              (
                y,
                same ∙ e,
                reached,
                λ q a. later q (keeps q a),
                elim ending [
                  | inl full ↦ inl full
                  | inr served ↦
                      inr (λ q m. elim (covered q m) [ inl now ↦ later q now | inr k ↦ served q k ])
                ],
              )
          | inr (inr (no_more, nothing)) ↦ (
            x,
            ground (arith, free, no_more),
            r',
            keeps,
            inr (λ q m. elim (covered q m) [
              | inl now ↦ now
              | inr k ↦ absurd (Memᴰ.not-nil (none_pending q x.pending nothing k))
            ]),
          )
        ]
      ]

  -- The state is reached by dispatches. The workers have run out and hold every token, or each request
  -- that was pending is answered, or exactly one request of its key runs or waits for its result to be
  -- handled.
  abbrev pub IsDone : List (List Text) → Option Round → Type 0
  IsDone sessions o =
      (r : Round) × (o ≡ some r)
      × Reachable limit r.state
      × (((r.is_saturated ≡ true) × (r.state.limit ≤ r.state.tokens))
          ⊎ ((q : Text)
              → IsPending q sessions
              → Memᴰ q r.state.answered
                ⊎ (in_flight (daemon_submit_dispatch_key read q) r.state ≡ 1)))

  -- With more fuel than there are pending requests, the rounds of dispatching end in a state that
  -- dispatches reach. There the workers have run out and hold every token, or each request that was
  -- pending is answered, or exactly one request of its key runs or waits for its result to be handled:
  -- the request itself, or the one that it has to wait for.
  pub dispatch_pending-IsDone :
      (fuel : ℕ) (sessions : List (List Text)) (s : Dispatcher)
      → Reachable limit s
      → total_pending sessions < fuel
      → IsDone sessions (dispatch_pending read fuel sessions s)
  dispatch_pending-IsDone fuel sessions s r h =
      let (x, e, reached, keeps, ending) = dispatch_pending-IsServed fuel sessions s r h in
      (
        x,
        e,
        reached,
        elim ending [
          | inl full ↦ inl full
          | inr served ↦ inr (λ q m. elim (served q m) [
            | inl answered ↦ inl answered
            | inr active ↦
                let k = daemon_submit_dispatch_key read q in
                inr (ground (arith, (reachable-Exclusive limit x.state reached).0 k, active))
          ])
        ],
      )
