-- ===== src/Submit/Tests.antt =====
-- Waiting for responses in concrete surroundings.
use tmux_a2a_postman.Base.{
  ℕ, zero, suc, ◌+◌, ◌*◌, ◌≡◌, refl, true, false, none, some, Text, [], codes, pos, arith, inr,
  ◌==◌,
}
use tmux_a2a_postman.Submit.{
  SubmitResponse, submit_pop, Surroundings, Reading, read_response, read_missing, removed,
  Transport, outcome, round_trip, effective_timeout, round_trip_loop, is_stale_response,
  wait_daemon_submit_response, poll_interval, submit_timed_out,
}
use tmux_a2a_postman.Submit.Waiting.{Ends, stale_turns, round_trip-Ends}

abbrev response : Text → SubmitResponse
response id = record {
  request_id = id;
  command = submit_pop;
  handled_at = [];
  empty = true;
  filename = [];
  content = [];
  markdown_path = [];
  unread_before = 0;
  error_text = [];
}

-- nothing, then a response to another request, then the response
abbrev readings : ℕ → Reading
readings zero = read_missing
readings (suc zero) = read_response (response (codes "old"))
readings (suc (suc n)) = read_response (response (codes "r1"))

abbrev surroundings : Surroundings
surroundings = record { read = readings; remove = λ n. removed; clock = λ n. 7 + n * poll_interval }

abbrev silent : Surroundings
silent = record {
  read = λ n. read_missing;
  remove = λ n. removed;
  clock = λ n. 7 + n * poll_interval;
}

abbrev transport : Transport
transport = record {
  new_request_id = some (codes "r1");
  created_at = [];
  is_written = true;
  now = 5;
  surroundings = surroundings;
}

skips_stale :
    round_trip (λ s. none) transport (pos 30_000_000) 5
    ≡ some (outcome (some (response (codes "r1"))) false 1 none)
unfolding round_trip round_trip_loop effective_timeout is_stale_response outcome ◌==◌
skips_stale = refl

times_out : wait_daemon_submit_response silent 5 (pos 30_000_000) 5 ≡ some (inr submit_timed_out)
unfolding wait_daemon_submit_response effective_timeout
times_out = refl

round_trip-Ends_example :
    Ends
      (λ s. none)
      surroundings
      (codes "r1")
      []
      (5 + effective_timeout (pos 30_000_000))
      (round_trip (λ s. none) transport (pos 30_000_000) 9)
unfolding effective_timeout stale_turns is_stale_response ◌==◌
round_trip-Ends_example =
    round_trip-Ends (λ s. none) transport (codes "r1") (pos 30_000_000) 9 refl refl
      (record { forward = λ n. omega arith; sleeps = λ n h. omega arith }) (omega arith)
      (omega arith)
