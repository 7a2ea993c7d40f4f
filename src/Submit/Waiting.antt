-- ===== src/Submit/Waiting.antt =====
-- That waiting for a response ends, and with what: internal/projection/daemon_submit.go and
-- internal/cli/daemon_submit.go.
use tmux_a2a_postman.Base.{
  [], ltb→lt, ◌-◌, ◌/◌, ℤ, ℕ, zero, suc, ◌+◌, ◌*◌, ◌≤◌, ◌<◌, true, false, Option, none, some, Text,
  ltb, ◌≡◌, arith, ◌⊎◌, inl, inr, Bool-cases, refl, sym, subst, if◌then◌else◌,
}
use tmux_a2a_postman.Submit.{
  Surroundings, Reading, read_response, read_missing, read_failed, Removal, removed, remove_missing,
  remove_failed, poll_interval, wait_loop, SubmitResponse, SubmitError, submit_timed_out,
  submit_read_failed, submit_remove_failed, Transport, round_trip, effective_timeout,
  wait_daemon_submit_response, SubmitOutcome, outcome, round_trip_loop, is_stale_response,
}

-- The clock does not go back, and a turn that sleeps takes the poll interval at least.
pub record IsClock (w : Surroundings) : Type 0 where
  pub forward : (n : ℕ) → w.clock n ≤ w.clock (suc n)
  pub sleeps : (n : ℕ) → w.read n ≡ read_missing → w.clock n + poll_interval ≤ w.clock (suc n)

-- the turns of a window that read a response which does not end the loop
unfoldable pub stale_turns : (Text → Option ℕ) → Surroundings → Text → Text → ℕ → ℕ → ℕ
stale_turns parse w id created zero turn = 0
stale_turns parse w id created (suc n) turn =
    let rest = stale_turns parse w id created n (suc turn) in
    elim (w.read turn) [
      | read_missing ↦ rest
      | read_failed ↦ rest
      | read_response r ↦ if is_stale_response parse r id created then suc rest else rest
    ]

Reading-cases :
    (r : Reading)
    → ((x : SubmitResponse) × (r ≡ read_response x)) ⊎ ((r ≡ read_missing) ⊎ (r ≡ read_failed))
Reading-cases (read_response x) = inl (x, refl)
Reading-cases read_missing = inr (inl refl)
Reading-cases read_failed = inr (inr refl)

Removal-cases : (r : Removal) → (r ≡ removed) ⊎ ((r ≡ remove_missing) ⊎ (r ≡ remove_failed))
Removal-cases removed = inl refl
Removal-cases remove_missing = inr (inl refl)
Removal-cases remove_failed = inr (inr refl)

module _ (parse : Text → Option ℕ) (w : Surroundings) (id created : Text) (deadline : ℕ) where
  -- the fresh response of some turn, a missing response at a turn behind the deadline, or an error
  abbrev pub IsJustified : SubmitOutcome → Type 0
  IsJustified o =
      ((n : ℕ) × (r : SubmitResponse) × (w.read n ≡ read_response r)
        × (is_stale_response parse r id created ≡ false)
        × (o.response ≡ some r))
      ⊎ (((n : ℕ) × (w.read n ≡ read_missing)
            × (deadline < w.clock n)
            × (o.failure ≡ some submit_timed_out))
          ⊎ ((o.failure ≡ some submit_read_failed) ⊎ (o.failure ≡ some submit_remove_failed)))

  abbrev pub Ends : Option SubmitOutcome → Type 0
  Ends r = (o : SubmitOutcome) × (r ≡ some o) × IsJustified o

  module _ (is_clock : IsClock w) where
    -- Each turn takes fuel for a stale response or time towards the deadline.
    round_trip_loop-Ends :
        (fuel turn stale left : ℕ)
        → deadline < w.clock turn + left * poll_interval
        → left + stale_turns parse w id created fuel turn < fuel
        → Ends (round_trip_loop parse w id created deadline fuel turn stale)
    unfolding round_trip_loop stale_turns outcome
    round_trip_loop-Ends zero turn stale left h f = absurd (omega arith)
    round_trip_loop-Ends (suc fuel) turn stale left h f = elim (Reading-cases (w.read turn)) [
      | inr (inr q) ↦ (
        outcome none false stale (some submit_read_failed),
        ground (arith, q),
        inr (inr (inl refl)),
      )
      | inr (inl q) ↦ elim (Bool-cases (ltb deadline (w.clock turn))) [
        | inl late ↦ (
          outcome none true stale (some submit_timed_out),
          ground (arith, q, late),
          inr (inl (turn, q, ltb→lt deadline (w.clock turn) late, refl)),
        )
        | inr early ↦
            let next = is_clock.sleeps turn q in
            let some_left : 1 ≤ left = ground (arith, h, early) in
            let fewer : (left - 1) + stale_turns parse w id created fuel (suc turn) < fuel =
              ground (arith, f, q, some_left) in
            let (o, e, j) =
              round_trip_loop-Ends fuel (suc turn) stale (left - 1)
                (omega (arith, h, next, some_left)) fewer in
            (o, ground (arith, q, early, e), j)
      ]
      | inl (r, q) ↦ elim (Bool-cases (is_stale_response parse r id created)) [
        | inr fresh ↦ elim (Removal-cases (w.remove turn)) [
          | inl g ↦ (
            outcome (some r) false stale none,
            ground (arith, q, fresh, g),
            inl (turn, r, q, fresh, refl),
          )
          | inr (inl g) ↦ (
            outcome (some r) false stale none,
            ground (arith, q, fresh, g),
            inl (turn, r, q, fresh, refl),
          )
          | inr (inr g) ↦ (
            outcome (some r) false stale (some submit_remove_failed),
            ground (arith, q, fresh, g),
            inl (turn, r, q, fresh, refl),
          )
        ]
        | inl old ↦
            let next = is_clock.forward turn in
            let fewer : left + stale_turns parse w id created fuel (suc turn) < fuel =
              ground (arith, f, q, old) in
            let (o, e, j) =
              round_trip_loop-Ends fuel (suc turn) (suc stale) left (omega (arith, h, next))
                fewer in
            elim (Removal-cases (w.remove turn)) [
              | inl g ↦ (o, ground (arith, q, old, g, e), j)
              | inr (inl g) ↦ (o, ground (arith, q, old, g, e), j)
              | inr (inr g) ↦ (
                outcome none false (suc stale) (some submit_remove_failed),
                ground (arith, q, old, g),
                inr (inr (inr refl)),
              )
            ]
      ]
    ]

    -- Waiting ends by the first response or error, or behind the deadline.
    wait_loop-ends :
        (fuel turn left : ℕ)
        → deadline < w.clock turn + left * poll_interval
        → left < fuel
        → (r : SubmitResponse ⊎ SubmitError) × (wait_loop w deadline fuel turn ≡ some r)
    unfolding wait_loop
    wait_loop-ends zero turn left h f = absurd (omega arith)
    wait_loop-ends (suc fuel) turn left h f = elim (Reading-cases (w.read turn)) [
      | inl (r, q) ↦ (inl r, ground (arith, q))
      | inr (inr q) ↦ (inr submit_read_failed, ground (arith, q))
      | inr (inl q) ↦ elim (Bool-cases (ltb deadline (w.clock turn))) [
        | inl late ↦ (inr submit_timed_out, ground (arith, q, late))
        | inr early ↦
            let next = is_clock.sleeps turn q in
            let some_left : 1 ≤ left = ground (arith, h, early) in
            let (r, e) =
              wait_loop-ends fuel (suc turn) (left - 1) (omega (arith, h, next, some_left))
                (omega (arith, f, some_left)) in
            (r, ground (arith, q, early, e))
      ]
    ]

-- Waiting for a response ends within as many turns as the timeout has poll intervals, and two more.
wait_daemon_submit_response-ends :
    (w : Surroundings) (now : ℕ) (timeout : ℤ) (fuel : ℕ)
    → IsClock w
    → now ≤ w.clock 0
    → effective_timeout timeout / poll_interval + 1 < fuel
    → (r : SubmitResponse ⊎ SubmitError) × (wait_daemon_submit_response w now timeout fuel ≡ some r)
unfolding wait_daemon_submit_response
wait_daemon_submit_response-ends w now timeout fuel is_clock from enough =
    wait_loop-ends (λ s. none) w [] [] (now + effective_timeout timeout) is_clock fuel 0
      (effective_timeout timeout / poll_interval + 1) (omega (arith, from)) enough

-- A round trip whose request is written ends within as many turns as the timeout has poll intervals,
-- those that remove a stale response, and two more, if the clock does not go back and sleeping takes the
-- poll interval: with a fresh response that was read, with a timeout at a turn behind the deadline at
-- which there was no response, or with an error of reading or removing.
pub round_trip-Ends :
    (parse : Text → Option ℕ) (t : Transport) (id : Text) (timeout : ℤ) (fuel : ℕ)
    → t.new_request_id ≡ some id
    → t.is_written ≡ true
    → IsClock t.surroundings
    → t.now ≤ t.surroundings.clock 0
    → effective_timeout timeout / poll_interval
        + 1
        + stale_turns parse t.surroundings id t.created_at fuel 0
      < fuel
    → Ends parse t.surroundings id t.created_at
        (t.now + effective_timeout timeout)
        (round_trip parse t timeout fuel)
unfolding round_trip
round_trip-Ends parse t id timeout fuel named written is_clock from enough =
    let same : round_trip parse t timeout fuel
        ≡ round_trip_loop parse t.surroundings id t.created_at (t.now + effective_timeout timeout)
            fuel 0 0 =
      ground (arith, named, written) in
    subst (Ends parse t.surroundings id t.created_at (t.now + effective_timeout timeout)) (sym same)
      (round_trip_loop-Ends parse t.surroundings id t.created_at (t.now + effective_timeout timeout)
        is_clock fuel 0 0 (effective_timeout timeout / poll_interval + 1) (omega (arith, from))
        enough)
