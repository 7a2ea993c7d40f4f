-- ===== src/Projection/InputRequests/Satisfied.antt =====
-- How requests are answered over time: RequestSatisfaction of
-- internal/projection/message_reply_slot_state.go. Time is read by the parameters: `parse_time` is
-- time.Parse at RFC3339Nano, an instant as its nanoseconds, and `whole_seconds a b` is
-- int(b.Sub(a).Seconds()) at an instant b that is not before a.
use tmux_a2a_postman.Base.{
  ◌>>=◌, not, Option, none, some, Text, [], ◌∷◌, is_empty, if◌then◌else◌, Map, lookup, insert, ℕ,
  suc, ◌+◌, ◌/◌, ltb, leb, eqb, map,
}
use tmux_a2a_postman.Envelope.{Metadata}
use tmux_a2a_postman.Envelope.Policy.{resolve_reply_policy, is_required}
use tmux_a2a_postman.Projection.InputRequests.{
  Detail, Satisfaction, Open, satisfaction_at, no_direction, opened_detail, input_request_key,
  default_stale_after_seconds,
}
use tmux_a2a_postman.Projection.InputRequests.Answering.{open_request, close_answered}

-- the part of the loop's variables that the satisfaction is kept in
pub record Ledger : Type 0 where
  pub unsatisfied : Open
  pub satisfaction : Map Satisfaction

-- openRequestSatisfaction
unfoldable pub open_request_satisfaction : Metadata → Text → Text → Text → Ledger → Ledger
open_request_satisfaction m at source event_id l =
    let stats = satisfaction_at m.to l.satisfaction in
    record {
      unsatisfied = open_request m (opened_detail m no_direction at source event_id) l.unsatisfied;
      satisfaction =
          insert m.to (record stats { opened_count = suc stats.opened_count }) l.satisfaction;
    }

-- findOpenRequestSatisfaction
unfoldable pub find_fallback_open : Metadata → Open → Option Detail
find_fallback_open m o = lookup (input_request_key m.message_id m.to) o.fallback

unfoldable pub find_open_request_satisfaction : Metadata → Open → Option Detail
find_open_request_satisfaction m o =
    if is_empty m.input_request_id
    then find_fallback_open m o
    else elim (lookup m.input_request_id o.exact) [
      | some d ↦ some d
      | none ↦ find_fallback_open m o
    ]

-- stats.DeadLetteredCount++
unfoldable pub count_dead_letter : Detail → Ledger → Ledger
count_dead_letter d l =
    let stats = satisfaction_at d.recipient l.satisfaction in
    record l {
      satisfaction =
          insert d.recipient (record stats { dead_lettered_count = suc stats.dead_lettered_count })
            l.satisfaction;
    }

unfoldable pub count_found_dead_letter : Metadata → Ledger → Ledger
count_found_dead_letter m l = elim (find_open_request_satisfaction m l.unsatisfied) [
  | none ↦ l
  | some d ↦ count_dead_letter d l
]

-- deadLetterRequestSatisfaction
unfoldable pub dead_letter_request_satisfaction : Metadata → Text → Text → Text → Ledger → Ledger
dead_letter_request_satisfaction m at source event_id l =
    if not (is_required (resolve_reply_policy m))
    then l
    else elim (find_open_request_satisfaction m l.unsatisfied) [
      | some d ↦ count_dead_letter d l
      | none ↦ count_found_dead_letter m (open_request_satisfaction m at source event_id l)
    ]

unfoldable pub aged : ℕ → ℕ → Satisfaction → Satisfaction
aged stale_after age stats = record stats {
  longest_open_age_seconds =
      if ltb stats.longest_open_age_seconds age then age else stats.longest_open_age_seconds;
  stale_open_count =
      if leb stale_after age then suc stats.stale_open_count else stats.stale_open_count;
}

unfoldable pub averaged : ℕ → Satisfaction → Satisfaction
averaged stale_after stats = record stats {
  stale_after_seconds = stale_after;
  average_time_to_fill_seconds =
      if eqb stats.filled_count 0
      then stats.average_time_to_fill_seconds
      else stats.total_time_to_fill_seconds / stats.filled_count;
}

module _ (parse_time : Text → Option ℕ) (whole_seconds : ℕ → ℕ → ℕ) where
  -- requestSatisfactionAgeSeconds, and requestSatisfactionElapsedSeconds at an end that is parsed
  unfoldable pub request_satisfaction_age_seconds : Text → ℕ → Option ℕ
  request_satisfaction_age_seconds opened_at now = parse_time opened_at >>= λ opened.
      if ltb now opened then none else some (whole_seconds opened now)

  unfoldable pub request_satisfaction_elapsed_seconds : Text → Text → Option ℕ
  request_satisfaction_elapsed_seconds opened_at filled_at = parse_time opened_at >>= λ opened.
      parse_time filled_at >>= λ filled.
      if ltb filled opened then none else some (whole_seconds opened filled)

  unfoldable pub filled_stats : Detail → Text → Satisfaction → Satisfaction
  filled_stats d filled_at stats =
      let counted = record stats { filled_count = suc stats.filled_count } in
      elim (request_satisfaction_elapsed_seconds d.opened_at filled_at) [
        | none ↦ counted
        | some seconds ↦ record counted {
          total_time_to_fill_seconds = stats.total_time_to_fill_seconds + seconds;
        }
      ]

  -- fillRequestSatisfaction
  unfoldable pub fill_request_satisfaction : Metadata → Text → Ledger → Ledger
  fill_request_satisfaction m filled_at l = elim (close_answered m l.unsatisfied) [
    | none ↦ l
    | some (d, o) ↦ record {
      unsatisfied = o;
      satisfaction =
          insert d.recipient (filled_stats d filled_at (satisfaction_at d.recipient l.satisfaction))
            l.satisfaction;
    }
  ]

  unfoldable pub open_stats : ℕ → ℕ → Detail → Satisfaction → Satisfaction
  open_stats now stale_after d stats =
      let counted = record stats {
        stale_after_seconds = stale_after;
        open_count = suc stats.open_count;
      } in
      elim (request_satisfaction_age_seconds d.opened_at now) [
        | none ↦ counted
        | some age ↦ aged stale_after age counted
      ]

  -- addOpenRequestSatisfaction
  unfoldable pub add_open_request_satisfaction :
      ℕ → ℕ → Detail → Map Satisfaction → Map Satisfaction
  add_open_request_satisfaction now stale_after d m =
      insert d.recipient (open_stats now stale_after d (satisfaction_at d.recipient m)) m

  unfoldable pub add_all_open : ℕ → ℕ → Map Detail → Map Satisfaction → Map Satisfaction
  add_all_open now stale_after [] m = m
  add_all_open now stale_after ((k, d) ∷ ds) m =
      add_all_open now stale_after ds (add_open_request_satisfaction now stale_after d m)

  -- finalizeRequestSatisfaction; a stale time of 0 stands for all that are not positive
  unfoldable pub finalize_request_satisfaction : ℕ → ℕ → Ledger → Map Satisfaction
  finalize_request_satisfaction now stale l =
      let stale_after = if eqb stale 0 then default_stale_after_seconds else stale in
      add_all_open now stale_after l.unsatisfied.fallback (
        add_all_open now stale_after l.unsatisfied.exact
          (map (λ (k, stats). (k, averaged stale_after stats)) l.satisfaction))
