-- ===== src/Submit/Dispatch/Coverage.antt =====
-- What becomes of each pending request in a round of dispatching: internal/daemon/runtime.go.
use mathlib.Core.List.{Memᴰ}
use tmux_a2a_postman.Base.{
  ℕ, ◌+◌, ◌≤◌, Bool, true, false, Text, List, [], ◌∷◌, length, arith, ◌≡◌, refl, inl, inr, sym,
  subst, ◌⊎◌,
}
use tmux_a2a_postman.Submit.Dispatch.{
  Dispatcher, Reader, dispatch_daemon_submit_request, DispatchStatus, dispatched, deferred,
  saturated, SessionTry, try_session, Round, run_round,
}
use tmux_a2a_postman.Submit.Dispatch.Serving.{
  IsServed, Keeps, dispatch_daemon_submit_request-IsDispatch,
}

unfoldable pub total_pending : List (List Text) → ℕ
total_pending [] = 0
total_pending (ps ∷ sessions) = length ps + total_pending sessions

pub DispatchStatus-cases :
    (s : DispatchStatus) → (s ≡ dispatched) ⊎ ((s ≡ saturated) ⊎ (s ≡ deferred))
DispatchStatus-cases dispatched = inl refl
DispatchStatus-cases saturated = inr (inl refl)
DispatchStatus-cases deferred = inr (inr refl)

-- a request of one of the sessions
abbrev pub IsPending : Text → List (List Text) → Type 0
IsPending q [] = Memᴰ q []
IsPending q (ps ∷ sessions) = Memᴰ q ps ⊎ IsPending q sessions

pub none_pending :
    (q : Text) (sessions : List (List Text))
    → total_pending sessions ≡ 0
    → IsPending q sessions
    → Memᴰ q []
unfolding total_pending
none_pending q [] h m = m
none_pending q ([] ∷ sessions) h (inl m) = m
none_pending q ((p ∷ ps) ∷ sessions) h (inl m) = absurd (omega (arith, h))
none_pending q (ps ∷ sessions) h (inr m) = none_pending q sessions (omega (arith, h)) m

module _ (read : Reader) where
  -- The workers ran out, or every request of the list is served or left over.
  abbrev IsCovered : List Text → Dispatcher → SessionTry → Type 0
  IsCovered ps s t =
      Keeps read s t.state
      × (((t.status ≡ saturated) × (t.state.limit ≤ t.state.tokens))
          ⊎ (((t.status ≡ dispatched) ⊎ (t.status ≡ deferred))
              × ((q : Text) → Memᴰ q ps → IsServed read t.state q ⊎ Memᴰ q t.rest)))

  try_session-IsCovered : (ps : List Text) (s : Dispatcher) → IsCovered ps s (try_session read ps s)
  unfolding try_session
  try_session-IsCovered [] s = (λ q h. h, inr (inr refl, λ q m. inr m))
  try_session-IsCovered (p ∷ ps) s =
      let d = dispatch_daemon_submit_request read p s in
      let (keeps, h) = dispatch_daemon_submit_request-IsDispatch read p s in
      let (later, g) = try_session-IsCovered ps d.1 in
      elim h [
        | inl (e, full) ↦
            let same : try_session read (p ∷ ps) s
                ≡ record { status = saturated; rest = ps; state = d.1 } =
              ground (arith, e) in
            subst (IsCovered (p ∷ ps) s) (sym same) (keeps, inl (refl, full))
        | inr (inl e, served) ↦
            let same : try_session read (p ∷ ps) s
                ≡ record { status = dispatched; rest = ps; state = d.1 } =
              ground (arith, e) in
            subst (IsCovered (p ∷ ps) s) (sym same) (
              keeps,
              inr (
                inl refl,
                λ q m. elim m [
                  | Memᴰ.head c ↦ inl (subst (IsServed read d.1) (sym c) served)
                  | Memᴰ.tail k ↦ inr k
                ],
              ),
            )
        | inr (inr e, served) ↦
            let same : try_session read (p ∷ ps) s ≡ try_session read ps d.1 = ground (arith, e) in
            subst (IsCovered (p ∷ ps) s) (sym same) (
              λ q a. later q (keeps q a),
              elim g [
                | inl full ↦ inl full
                | inr (how, covered) ↦ inr (
                  how,
                  λ q m. elim m [
                    | Memᴰ.head c ↦ inl (later q (subst (IsServed read d.1) (sym c) served))
                    | Memᴰ.tail k ↦ covered q k
                  ],
                )
              ],
            )
      ]

  abbrev pub IsCoveredRound : List (List Text) → Dispatcher → Round → Type 0
  IsCoveredRound sessions s r =
      Keeps read s r.state
      × (((r.is_saturated ≡ true) × (r.state.limit ≤ r.state.tokens))
          ⊎ ((r.is_saturated ≡ false)
              × ((q : Text)
                  → IsPending q sessions
                  → IsServed read r.state q ⊎ IsPending q r.pending)))

  -- a round in which the first session was tried, and the workers did not run out
  continued :
      (ps : List Text) (sessions : List (List Text)) (s : Dispatcher) (t : SessionTry) (b : Bool)
      (later : Round)
      → Keeps read s t.state
      → ((q : Text) → Memᴰ q ps → IsServed read t.state q ⊎ Memᴰ q t.rest)
      → IsCoveredRound sessions t.state later
      → IsCoveredRound
          (ps ∷ sessions)
          s
          (record later { dispatched_in_round = b; pending = t.rest ∷ later.pending })
  continued ps sessions s t b later keeps covered (after_it, g) = (
    λ q a. after_it q (keeps q a),
    elim g [
      | inl full ↦ inl full
      | inr (free, others) ↦ inr (
        free,
        λ q m. elim m [
          | inl here ↦ elim (covered q here) [
            | inl served ↦ inl (after_it q served)
            | inr k ↦ inr (inl k)
          ]
          | inr there ↦ elim (others q there) [ inl served ↦ inl served | inr k ↦ inr (inr k) ]
        ],
      )
    ],
  )

  pub run_round-IsCovered :
      (sessions : List (List Text)) (s : Dispatcher)
      → IsCoveredRound sessions s (run_round read sessions s)
  unfolding run_round
  run_round-IsCovered [] s = (λ q h. h, inr (refl, λ q m. inr m))
  run_round-IsCovered (ps ∷ sessions) s =
      let t = try_session read ps s in
      let later = run_round read sessions t.state in
      let (keeps, h) = try_session-IsCovered ps s in
      let rest = run_round-IsCovered sessions t.state in
      elim (DispatchStatus-cases t.status) [
        | inl e ↦
            let x : Round = record later {
              dispatched_in_round = true;
              pending = t.rest ∷ later.pending;
            } in
            let same : run_round read (ps ∷ sessions) s ≡ x = ground (arith, e) in
            subst (IsCoveredRound (ps ∷ sessions) s) (sym same) (elim h [
              | inl (e', full) ↦ absurd (ground (arith, e, e'))
              | inr (how, covered) ↦ continued ps sessions s t true later keeps covered rest
            ])
        | inr (inl e) ↦
            let x : Round = record {
              is_saturated = true;
              dispatched_in_round = false;
              pending = t.rest ∷ sessions;
              state = t.state;
            } in
            let same : run_round read (ps ∷ sessions) s ≡ x = ground (arith, e) in
            subst (IsCoveredRound (ps ∷ sessions) s) (sym same) (
              keeps,
              elim h [
                | inl (e', full) ↦ inl (refl, full)
                | inr (how, covered) ↦
                    absurd
                      (elim how [ inl d ↦ ground (arith, e, d) | inr d ↦ ground (arith, e, d) ])
              ],
            )
        | inr (inr e) ↦
            let x : Round = record later { pending = t.rest ∷ later.pending } in
            let same : run_round read (ps ∷ sessions) s ≡ x = ground (arith, e) in
            subst (IsCoveredRound (ps ∷ sessions) s) (sym same) (elim h [
              | inl (e', full) ↦ absurd (ground (arith, e, e'))
              | inr (how, covered) ↦
                  continued ps sessions s t later.dispatched_in_round later keeps covered rest
            ])
      ]
