-- ===== src/Submit.antt =====
-- Requests to the daemon: internal/projection/daemon_submit.go and internal/cli/daemon_submit.go. A
-- command writes a request file and waits for the response file of its request. The clock and the
-- file system answer at every turn of the loop; times are nanoseconds.

pub mod Waiting
pub mod Dispatch
pub mod Tests
use tmux_a2a_postman.Base.{
  ℕ, zero, suc, ◌+◌, Bool, true, false, not, ◌&&◌, ◌||◌, Option, none, some, Text, ◌==◌, is_empty,
  if◌then◌else◌, ltb, ℤ, pos, negsuc, ◌⊎◌, inl, inr,
}

pub data SubmitCommand : Type 0 where
  submit_send submit_pop submit_runtime_diagnostics submit_runtime_profile : SubmitCommand
  submit_other : Text → SubmitCommand

pub record SubmitRequest : Type 0 where
  pub request_id : Text
  pub command : SubmitCommand
  pub created_at : Text
  pub filename : Text
  pub sender : Text
  pub node : Text
  pub content : Text

pub record SubmitResponse : Type 0 where
  pub request_id : Text
  pub command : SubmitCommand
  pub handled_at : Text
  pub empty : Bool
  pub filename : Text
  pub content : Text
  pub markdown_path : Text
  pub unread_before : ℕ
  pub error_text : Text

-- What reading the response file gives: os.IsNotExist sets one error apart.
pub data Reading : Type 0 where
  read_response : SubmitResponse → Reading
  read_missing : Reading
  read_failed : Reading

-- What removing the response file gives
pub data Removal : Type 0 where
  removed remove_missing remove_failed : Removal

pub data SubmitError : Type 0 where
  submit_id_failed submit_write_failed submit_read_failed submit_remove_failed submit_timed_out :
      SubmitError
  submit_refused : Text → SubmitError

-- if timeout <= 0 { timeout = time.Second }
unfoldable pub effective_timeout : ℤ → ℕ
effective_timeout (pos zero) = 1_000_000_000
effective_timeout (pos (suc n)) = suc n
effective_timeout (negsuc n) = 1_000_000_000

-- 10 * time.Millisecond
abbrev pub poll_interval : ℕ
poll_interval = 10_000_000

-- What the loops see at their turns, counted from 0: the response file, its removal and the clock.
pub record Surroundings : Type 0 where
  pub read : ℕ → Reading
  pub remove : ℕ → Removal
  pub clock : ℕ → ℕ

-- The loop of WaitDaemonSubmitResponse; `none` if the fuel does not suffice.
unfoldable pub wait_loop : Surroundings → ℕ → ℕ → ℕ → Option (SubmitResponse ⊎ SubmitError)
wait_loop w deadline zero turn = none
wait_loop w deadline (suc fuel) turn = elim (w.read turn) [
  | read_response r ↦ some (inl r)
  | read_failed ↦ some (inr submit_read_failed)
  | read_missing ↦ elim (ltb deadline (w.clock turn)) [
    | true ↦ some (inr submit_timed_out)
    | false ↦ wait_loop w deadline fuel (suc turn)
  ]
]

unfoldable pub wait_daemon_submit_response :
    Surroundings → ℕ → ℤ → ℕ → Option (SubmitResponse ⊎ SubmitError)
unfolding wait_loop effective_timeout
wait_daemon_submit_response w now timeout fuel =
    wait_loop w (now + effective_timeout timeout) fuel 0

-- daemonSubmitRoundTripOutcome with its error, without the ids and paths that it repeats and the
-- diagnostics of a timeout
pub record SubmitOutcome : Type 0 where
  pub response : Option SubmitResponse
  pub timed_out : Bool
  pub stale_response_count : ℕ
  pub failure : Option SubmitError

unfoldable pub outcome : Option SubmitResponse → Bool → ℕ → Option SubmitError → SubmitOutcome
outcome r t n e = record { response = r; timed_out = t; stale_response_count = n; failure = e }

-- What `roundTrip` is given: the new request id, unless there is none, the time as it is written,
-- whether the request is written, and the time at the start.
pub record Transport : Type 0 where
  pub new_request_id : Option Text
  pub created_at : Text
  pub is_written : Bool
  pub now : ℕ
  pub surroundings : Surroundings

-- roundTripDaemonSubmitWithTransport, on an outcome
unfoldable pub response_of : SubmitOutcome → Option (SubmitResponse ⊎ SubmitError)
response_of o = elim o.failure [
  | some e ↦ some (inr e)
  | none ↦ elim o.response [
    | none ↦ none
    | some r ↦
        if is_empty r.error_text then some (inl r) else some (inr (submit_refused r.error_text))
  ]
]

module _ (parse_time : Text → Option ℕ) where
  -- Times that do not parse show nothing; a second is allowed, since responses have whole seconds.
  unfoldable pub is_stale_response : SubmitResponse → Text → Text → Bool
  is_stale_response r request_id created_at =
      if not (is_empty r.request_id) && not (r.request_id == request_id)
      then true
      else if is_empty r.handled_at || is_empty created_at
      then false
      else elim (parse_time r.handled_at) [
        | none ↦ false
        | some handled ↦ elim (parse_time created_at) [
          | none ↦ false
          | some created ↦ ltb (handled + 1_000_000_000) created
        ]
      ]

  -- The loop of `roundTrip`: a stale response is removed, and the next turn begins at once.
  unfoldable pub round_trip_loop : Surroundings → Text → Text → ℕ → ℕ → ℕ → ℕ → Option SubmitOutcome
  round_trip_loop w id created deadline zero turn stale = none
  round_trip_loop w id created deadline (suc fuel) turn stale = elim (w.read turn) [
    | read_failed ↦ some (outcome none false stale (some submit_read_failed))
    | read_missing ↦ elim (ltb deadline (w.clock turn)) [
      | true ↦ some (outcome none true stale (some submit_timed_out))
      | false ↦ round_trip_loop w id created deadline fuel (suc turn) stale
    ]
    | read_response r ↦ elim (is_stale_response r id created) [
      | true ↦ elim (w.remove turn) [
        | remove_failed ↦ some (outcome none false (suc stale) (some submit_remove_failed))
        | removed ↦ round_trip_loop w id created deadline fuel (suc turn) (suc stale)
        | remove_missing ↦ round_trip_loop w id created deadline fuel (suc turn) (suc stale)
      ]
      | false ↦ elim (w.remove turn) [
        | remove_failed ↦ some (outcome (some r) false stale (some submit_remove_failed))
        | removed ↦ some (outcome (some r) false stale none)
        | remove_missing ↦ some (outcome (some r) false stale none)
      ]
    ]
  ]

  unfoldable pub round_trip : Transport → ℤ → ℕ → Option SubmitOutcome
  unfolding round_trip_loop outcome effective_timeout
  round_trip t timeout fuel = elim t.new_request_id [
    | none ↦ some (outcome none false 0 (some submit_id_failed))
    | some id ↦
        if t.is_written
        then round_trip_loop t.surroundings id t.created_at (t.now + effective_timeout timeout) fuel
            0 0
        else some (outcome none false 0 (some submit_write_failed))
  ]
