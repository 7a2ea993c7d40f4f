-- ===== src/Submit/Dispatch/Serving.antt =====
-- What a dispatch makes of its request: internal/daemon/runtime.go.
use mathlib.Core.List.{Memᴰ}
use tmux_a2a_postman.Base.{
  suc, ◌≤◌, true, Text, ◌∷◌, ◌==◌, if◌then◌else◌, arith, ◌≡◌, refl, inl, inr, Bool-cases, sym,
  subst, ◌⊎◌, ltb, lookup-insert, beq_refl,
}
use tmux_a2a_postman.Submit.Dispatch.{
  Dispatcher, Reader, dispatch_daemon_submit_request, DispatchStatus, dispatched, deferred,
  saturated, dispatch_keyed, launch, is_active_key, is_runtime_diagnostics_submit_request,
  daemon_submit_dispatch_key, Job,
}

-- The request is answered, or a request of its key runs or waits for its result to be handled: itself,
-- or the one that it has to wait for.
abbrev pub IsServed : Reader → Dispatcher → Text → Type 0
IsServed read s p = Memᴰ p s.answered ⊎ (is_active_key (daemon_submit_dispatch_key read p) s ≡ true)

-- What is served stays served, as no result is handled in between.
abbrev pub Keeps : Reader → Dispatcher → Dispatcher → Type 0
Keeps read s s' = (q : Text) → IsServed read s q → IsServed read s' q

is_active-launch :
    (k : Text) (j : Job) (s : Dispatcher)
    → is_active_key k (launch j s) ≡ (if j.dispatch_key == k then true else is_active_key k s)
unfolding launch
is_active-launch k j s = ground (arith, lookup-insert j.dispatch_key k true s.active)

module _ (read : Reader) where
  -- A dispatch serves its request, unless the workers ran out.
  abbrev pub IsDispatch : Text → Dispatcher → DispatchStatus × Dispatcher → Type 0
  IsDispatch p s d =
      Keeps read s d.1
      × (((d.0 ≡ saturated) × (d.1.limit ≤ d.1.tokens))
          ⊎ (((d.0 ≡ dispatched) ⊎ (d.0 ≡ deferred)) × IsServed read d.1 p))

  dispatch_keyed-IsDispatch :
      (p : Text) (s : Dispatcher)
      → IsDispatch p s (
          dispatch_keyed
            (record { request_path = p; dispatch_key = daemon_submit_dispatch_key read p })
            s)
  dispatch_keyed-IsDispatch p s =
      let k = daemon_submit_dispatch_key read p in
      let j : Job = record { request_path = p; dispatch_key = k } in
      elim (Bool-cases (is_active_key k s)) [
        | inl e ↦
            let same : dispatch_keyed j s ≡ (deferred, s) =
              unfold dispatch_keyed in ground (arith, e) in
            subst (IsDispatch p s) (sym same) (λ q h. h, inr (inr refl, inr e))
        | inr e ↦ elim (Bool-cases (ltb s.tokens s.limit)) [
          | inl room ↦
              let same : dispatch_keyed j s ≡ (dispatched, launch j s) =
                unfold dispatch_keyed in ground (arith, e, room) in
              subst (IsDispatch p s) (sym same) (
                λ q h. elim h [
                  | inl m ↦ inl (unfold launch in m)
                  | inr a ↦
                      inr (
                        ground (arith, a, is_active-launch (daemon_submit_dispatch_key read q) j s))
                ],
                inr (inl refl, inr (ground (arith, is_active-launch k j s, beq_refl k))),
              )
          | inr full ↦
              let x : Dispatcher = record s { saturation_count = suc s.saturation_count } in
              let same : dispatch_keyed j s ≡ (saturated, x) =
                unfold dispatch_keyed in ground (arith, e, full) in
              subst (IsDispatch p s) (sym same) (λ q h. h, inl (refl, ground (arith, full)))
        ]
      ]

  pub dispatch_daemon_submit_request-IsDispatch :
      (p : Text) (s : Dispatcher) → IsDispatch p s (dispatch_daemon_submit_request read p s)
  dispatch_daemon_submit_request-IsDispatch p s =
      elim (Bool-cases (is_runtime_diagnostics_submit_request read p)) [
        | inl e ↦
            let x : Dispatcher = record s { answered = p ∷ s.answered } in
            let same : dispatch_daemon_submit_request read p s ≡ (dispatched, x) =
              unfold dispatch_daemon_submit_request in ground (arith, e) in
            subst (IsDispatch p s) (sym same) (
              λ q h. elim h [ inl m ↦ inl (Memᴰ.tail m) | inr a ↦ inr a ],
              inr (inl refl, inl (Memᴰ.head refl)),
            )
        | inr e ↦
            let j : Job = record {
              request_path = p;
              dispatch_key = daemon_submit_dispatch_key read p;
            } in
            let same : dispatch_daemon_submit_request read p s ≡ dispatch_keyed j s =
              unfold dispatch_daemon_submit_request in ground (arith, e) in
            subst (IsDispatch p s) (sym same) (dispatch_keyed-IsDispatch p s)
      ]
