-- ===== src/Submit/Dispatch/Steps.antt =====
-- The dispatcher and its workers as steps of internal/daemon/runtime.go, in any order.
use tmux_a2a_postman.Base.{
  ap, sym, subst, ℕ, suc, ◌+◌, ◌≤◌, ◌<◌, Bool, true, false, Text, List, [], ◌∷◌, ◌++◌, ◌==◌,
  if◌then◌else◌, ltb, lookup, lookup-insert, lookup-delete, length, length-append, count_if, arith,
  ◌≡◌, refl, beq_iff, inl, inr, Bool-cases, ltb→lt,
}
use tmux_a2a_postman.Submit.Dispatch.{
  dispatched, deferred, saturated, Job, Dispatcher, new_dispatcher, Reader,
  dispatch_daemon_submit_request, dispatch_keyed, launch, is_active_key,
  handle_daemon_submit_result, is_runtime_diagnostics_submit_request, daemon_submit_dispatch_key,
}

-- A worker sends its result, if the channel is not full, and releases its token; a result is handled.
pub data Step : Dispatcher → Dispatcher → Type 0 where
  dispatching :
      (read : Reader) (path : Text) (s : Dispatcher)
      → Step s (dispatch_daemon_submit_request read path s).1
  sending :
      (xs ys : List Job) (j : Job) (s : Dispatcher)
      → s.running ≡ xs ++ j ∷ ys
      → length s.results < s.limit
      → Step s (record s {
        running = xs ++ ys;
        results = s.results ++ j ∷ [];
        releasing = suc s.releasing;
      })
  releasing :
      (n m : ℕ) (s : Dispatcher)
      → s.releasing ≡ suc n
      → s.tokens ≡ suc m
      → Step s (record s { releasing = n; tokens = m })
  handling :
      (j : Job) (js : List Job) (s : Dispatcher)
      → s.results ≡ j ∷ js
      → Step s (handle_daemon_submit_result j (record s { results = js }))

pub data Reachable (limit : ℕ) : Dispatcher → Type 0 where
  started : Reachable limit (new_dispatcher limit)
  after : {s s' : Dispatcher} → Reachable limit s → Step s s' → Reachable limit s'

abbrev pub has_key_of : Text → Job → Bool
has_key_of k j = j.dispatch_key == k

-- the requests with a key that run or whose result waits to be handled
abbrev pub in_flight : Text → Dispatcher → ℕ
in_flight k s = count_if (has_key_of k) s.running + count_if (has_key_of k) s.results

-- Each active key stands for exactly one request, and each worker that has not ended for a token.
abbrev pub IsAccounted : ℕ → Dispatcher → Type 0
IsAccounted limit s =
    ((k : Text) → in_flight k s ≡ (if is_active_key k s then 1 else 0))
    × (s.tokens ≡ length s.running + s.releasing)
    × (s.tokens ≤ limit)
    × (s.limit ≡ limit)

count_if-middle :
    (p : Job → Bool) (xs ys : List Job) (j : Job)
    → count_if p (xs ++ j ∷ ys) ≡ count_if p (xs ++ ys) + (if p j then 1 else 0)
unfolding count_if
count_if-middle p [] ys j = ground arith
count_if-middle p (x ∷ xs) ys j = ground (arith, count_if-middle p xs ys j)

count_if-last :
    (p : Job → Bool) (xs : List Job) (j : Job)
    → count_if p (xs ++ j ∷ []) ≡ count_if p xs + (if p j then 1 else 0)
unfolding count_if
count_if-last p [] j = ground arith
count_if-last p (x ∷ xs) j = ground (arith, count_if-last p xs j)

is_active_key-launch :
    (k : Text) (j : Job) (s : Dispatcher)
    → is_active_key k (launch j s) ≡ (if j.dispatch_key == k then true else is_active_key k s)
unfolding launch
is_active_key-launch k j s = ground (arith, lookup-insert j.dispatch_key k true s.active)

is_active_key-handle :
    (k : Text) (j : Job) (s : Dispatcher)
    → is_active_key k (handle_daemon_submit_result j s)
      ≡ (if j.dispatch_key == k then false else is_active_key k s)
unfolding handle_daemon_submit_result
is_active_key-handle k j s = ground (arith, lookup-delete j.dispatch_key k s.active)

in_flight-launch :
    (k : Text) (j : Job) (s : Dispatcher)
    → in_flight k (launch j s) ≡ in_flight k s + (if j.dispatch_key == k then 1 else 0)
unfolding launch count_if
in_flight-launch k j s = ground arith

in_flight-handle :
    (k : Text) (j : Job) (js : List Job) (s : Dispatcher)
    → s.results ≡ j ∷ js
    → in_flight k s
      ≡ in_flight k (handle_daemon_submit_result j (record s { results = js }))
        + (if j.dispatch_key == k then 1 else 0)
unfolding handle_daemon_submit_result count_if
in_flight-handle k j js s e = ground (arith, e)

module _ (limit : ℕ) where
  launch-IsAccounted :
      (j : Job) (s : Dispatcher)
      → is_active_key j.dispatch_key s ≡ false
      → s.tokens < s.limit
      → IsAccounted limit s
      → IsAccounted limit (launch j s)
  unfolding count_if
  launch-IsAccounted j s free room h = (
    λ k. ground (
      arith,
      h.0 k,
      in_flight-launch k j s,
      is_active_key-launch k j s,
      free,
      beq_iff j.dispatch_key k,
    ),
    unfold launch in omega (arith, h.1),
    unfold launch in omega (arith, room, h.3),
    unfold launch in h.3,
  )

  handle-IsAccounted :
      (j : Job) (js : List Job) (s : Dispatcher)
      → s.results ≡ j ∷ js
      → IsAccounted limit s
      → IsAccounted limit (handle_daemon_submit_result j (record s { results = js }))
  unfolding count_if
  handle-IsAccounted j js s e h = (
    λ k. ground (
      arith,
      h.0 k,
      in_flight-handle k j js s e,
      is_active_key-handle k j (record s { results = js }),
    ),
    unfold handle_daemon_submit_result in h.1,
    unfold handle_daemon_submit_result in h.2,
    unfold handle_daemon_submit_result in h.3,
  )

  dispatch_keyed-IsAccounted :
      (j : Job) (s : Dispatcher) → IsAccounted limit s → IsAccounted limit (dispatch_keyed j s).1
  dispatch_keyed-IsAccounted j s h = elim (Bool-cases (is_active_key j.dispatch_key s)) [
    | inl e ↦
        let same : dispatch_keyed j s ≡ (deferred, s) =
          unfold dispatch_keyed in ground (arith, e) in
        subst (λ r. IsAccounted limit r.1) (sym same) h
    | inr e ↦ elim (Bool-cases (ltb s.tokens s.limit)) [
      | inl room ↦
          let same : dispatch_keyed j s ≡ (dispatched, launch j s) =
            unfold dispatch_keyed in ground (arith, e, room) in
          subst (λ r. IsAccounted limit r.1) (sym same)
            (launch-IsAccounted j s e (ltb→lt s.tokens s.limit room) h)
      | inr full ↦
          let same : dispatch_keyed j s
              ≡ (saturated, record s { saturation_count = suc s.saturation_count }) =
            unfold dispatch_keyed in ground (arith, e, full) in
          subst (λ r. IsAccounted limit r.1) (sym same) h
    ]
  ]

  dispatch_diagnostics :
      (read : Reader) (path : Text) (s : Dispatcher)
      → is_runtime_diagnostics_submit_request read path ≡ true
      → dispatch_daemon_submit_request read path s
        ≡ (dispatched, record s { answered = path ∷ s.answered })
  unfolding dispatch_daemon_submit_request
  dispatch_diagnostics read path s e = ground (arith, e)

  dispatch_other :
      (read : Reader) (path : Text) (s : Dispatcher)
      → is_runtime_diagnostics_submit_request read path ≡ false
      → dispatch_daemon_submit_request read path s
        ≡ dispatch_keyed
            (record { request_path = path; dispatch_key = daemon_submit_dispatch_key read path })
            s
  unfolding dispatch_daemon_submit_request
  dispatch_other read path s e = ground (arith, e)

  dispatch-IsAccounted :
      (read : Reader) (path : Text) (s : Dispatcher)
      → IsAccounted limit s
      → IsAccounted limit (dispatch_daemon_submit_request read path s).1
  dispatch-IsAccounted read path s h =
      elim (Bool-cases (is_runtime_diagnostics_submit_request read path)) [
        | inl e ↦ subst (λ r. IsAccounted limit r.1) (sym (dispatch_diagnostics read path s e)) h
        | inr e ↦
            subst (λ r. IsAccounted limit r.1) (sym (dispatch_other read path s e))
              (dispatch_keyed-IsAccounted
                (record {
                  request_path = path;
                  dispatch_key = daemon_submit_dispatch_key read path;
                })
                s h)
      ]

  Step-IsAccounted : {s s' : Dispatcher} → Step s s' → IsAccounted limit s → IsAccounted limit s'
  Step-IsAccounted (dispatching read path s) h = dispatch-IsAccounted read path s h
  Step-IsAccounted (sending xs ys j s e room) h = (
    λ k. omega (
      arith,
      h.0 k,
      ap (count_if (has_key_of k)) e,
      count_if-middle (has_key_of k) xs ys j,
      count_if-last (has_key_of k) s.results j,
    ),
    ground (arith, h.1, e, length-append xs ys, length-append xs (j ∷ ys)),
    h.2,
    h.3,
  )
  Step-IsAccounted (releasing n m s e e') h =
      (h.0, omega (arith, h.1, e, e'), omega (arith, h.2, e'), h.3)
  Step-IsAccounted (handling j js s e) h = handle-IsAccounted j js s e h

  Reachable-IsAccounted : {s : Dispatcher} → Reachable limit s → IsAccounted limit s
  unfolding new_dispatcher count_if lookup
  Reachable-IsAccounted started = (λ k. refl, refl, omega arith, refl)
  Reachable-IsAccounted (after r step) = Step-IsAccounted step (Reachable-IsAccounted r)

-- Whatever the order of dispatches, results and releases: at most one request of a key runs or waits for
-- its result to be handled, exactly the active keys have such a request, and no more workers run than the
-- limit allows.
pub reachable-Exclusive :
    (limit : ℕ) (s : Dispatcher)
    → Reachable limit s
    → ((k : Text) → in_flight k s ≡ (if is_active_key k s then 1 else 0))
      × (length s.running + s.releasing ≤ limit)
reachable-Exclusive limit s r =
    let h = Reachable-IsAccounted limit r in (h.0, omega (arith, h.1, h.2))
