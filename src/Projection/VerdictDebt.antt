-- ===== src/Projection/VerdictDebt.antt =====
-- ProjectVerdictDebtState of internal/projection/verdict_debt_state.go: the answers that still wait for
-- the requester's verdict. Payloads and times are read as in InputRequests.
pub mod Counts
pub mod Stamps
pub mod Tests
use tmux_a2a_postman.Base.{
  Bool, true, false, not, ◌&&◌, ◌||◌, Option, none, some, Text, List, [], ◌∷◌, ◌++◌, ◌==◌, is_empty,
  if◌then◌else◌, Map, lookup, insert, delete, ℕ, suc, leb, text_lt, Result, ok, err, map,
}
use tmux_a2a_postman.Journal.{
  Event, EventType, CommittedRecord, SessionState, mailbox_post_consumed, mailbox_delivered,
  verdict_none_timeout,
}
use tmux_a2a_postman.Journal.Replay.{replay, ReplayError}
use tmux_a2a_postman.Envelope.{Metadata}
use tmux_a2a_postman.Envelope.Policy.{resolve_reply_policy, is_required}
use tmux_a2a_postman.Projection.{
  Seen, unseen, see, saw_all, fold_current, load_current_session_state,
}
use tmux_a2a_postman.Projection.InputRequests.{
  MailboxEventPayload, input_request_metadata_from_payload, default_stale_after_seconds,
}
use tmux_a2a_postman.Projection.InputRequests.Loop.{simplified, decode_mailbox_event_payload}
use tmux_a2a_postman.Projection.InputRequests.Satisfied.{request_satisfaction_age_seconds}

-- verdictRequiredRequest
pub record RequiredRequest : Type 0 where
  pub input_request_id : Text
  pub requester : Text
  pub filler : Text
  pub message_id : Text

-- VerdictDebtItem
pub record DebtItem : Type 0 where
  pub input_request_id : Text
  pub requester : Text
  pub filler : Text
  pub request_message : Text
  pub fill_message : Text
  pub filled_at : Text
  pub age_seconds : ℕ
  pub expired : Bool

-- VerdictRequesterDebt
pub record RequesterDebt : Type 0 where
  pub unstamped_count : ℕ
  pub expired_count : ℕ
  pub items : List DebtItem

-- The variables of the loop
pub record DebtFold : Type 0 where
  pub requests : Map RequiredRequest
  pub debts : Map DebtItem
  pub seen : Seen
  pub saw_complete_mailbox_event : Bool

unfoldable pub no_debts : DebtFold
no_debts = record { requests = []; debts = []; seen = unseen; saw_complete_mailbox_event = false }

unfoldable pub required_request : Metadata → RequiredRequest
required_request m = record {
  input_request_id = m.input_request_id;
  requester = m.from;
  filler = m.to;
  message_id = m.message_id;
}

-- a delivery that asks for input
unfoldable pub note_request : Metadata → DebtFold → DebtFold
note_request m s =
    if is_required (resolve_reply_policy m) && not (is_empty m.input_request_id)
    then record s { requests = insert m.input_request_id (required_request m) s.requests }
    else s

unfoldable pub debt_of : Metadata → Text → RequiredRequest → DebtItem
debt_of m at r = record {
  input_request_id = r.input_request_id;
  requester = r.requester;
  filler = r.filler;
  request_message = r.message_id;
  fill_message = m.message_id;
  filled_at = at;
  age_seconds = 0;
  expired = false;
}

-- a delivery that fills a request
unfoldable pub note_fill : Metadata → Text → DebtFold → DebtFold
note_fill m at s =
    if is_empty m.fills_input_request_id
    then s
    else elim (lookup m.fills_input_request_id s.requests) [
      | none ↦ s
      | some r ↦
          if r.filler == m.from
          then record s { debts = insert r.input_request_id (debt_of m at r) s.debts }
          else s
    ]

-- a verdict
unfoldable pub note_verdict : Metadata → DebtFold → DebtFold
note_verdict m s =
    if is_empty m.verdict || is_empty m.verdict_of
    then s
    else elim (lookup m.verdict_of s.requests) [
      | none ↦ s
      | some r ↦
          if r.requester == m.from && r.filler == m.to
          then record s { debts = delete m.verdict_of s.debts }
          else s
    ]

abbrev pub is_delivery : EventType → Bool
is_delivery mailbox_delivered = true
is_delivery _ = false

abbrev pub is_debt_event : EventType → Bool
is_debt_event mailbox_post_consumed = true
is_debt_event verdict_none_timeout = true
is_debt_event t = is_delivery t

-- what an event changes
unfoldable pub note_event : EventType → Metadata → Text → DebtFold → DebtFold
note_event t m at s =
    note_verdict m (if is_delivery t then note_fill m at (note_request m s) else s)

-- one turn of the loop on a decoded payload
unfoldable pub on_debt_payload : Text → EventType → MailboxEventPayload → Text → DebtFold → DebtFold
on_debt_payload session_name t p at s =
    let m = input_request_metadata_from_payload p in
    if is_empty m.message_id || is_empty p.content
    then s
    else note_event t (simplified session_name m) at
        (record s { saw_complete_mailbox_event = true })

abbrev pub no_debt : RequesterDebt
no_debt = record { unstamped_count = 0; expired_count = 0; items = [] }

abbrev pub debt_at : Text → Map RequesterDebt → RequesterDebt
debt_at k m = elim (lookup k m) [ none ↦ no_debt | some d ↦ d ]

-- one more item of its requester
unfoldable pub add_item : DebtItem → Map RequesterDebt → Map RequesterDebt
add_item i m =
    let d = debt_at i.requester m in
    insert i.requester
      (record {
        unstamped_count = suc d.unstamped_count;
        expired_count = if i.expired then suc d.expired_count else d.expired_count;
        items = d.items ++ i ∷ [];
      })
      m

unfoldable pub item_lt : DebtItem → DebtItem → Bool
item_lt a b =
    if not (a.filled_at == b.filled_at)
    then text_lt a.filled_at b.filled_at
    else text_lt a.input_request_id b.input_request_id

unfoldable pub insert_item : DebtItem → List DebtItem → List DebtItem
insert_item i [] = i ∷ []
insert_item i (j ∷ js) = let rest = insert_item i js in if item_lt j i then j ∷ rest else i ∷ j ∷ js

-- sort.Slice, which leaves open how items that its test does not tell apart are ordered
unfoldable pub sort_items : List DebtItem → List DebtItem
sort_items [] = []
sort_items (i ∷ is) = insert_item i (sort_items is)

module _ (parse_time : Text → Option ℕ) (whole_seconds : ℕ → ℕ → ℕ) where
  -- an item with its age, `grace` being the seconds of grace
  unfoldable pub with_age : ℕ → ℕ → DebtItem → DebtItem
  with_age now grace i =
      elim (request_satisfaction_age_seconds parse_time whole_seconds i.filled_at now) [
        | none ↦ i
        | some age ↦ record i { age_seconds = age; expired = leb grace age }
      ]

  unfoldable pub add_items : ℕ → ℕ → Map DebtItem → Map RequesterDebt → Map RequesterDebt
  add_items now grace [] m = m
  add_items now grace ((k, i) ∷ is) m = add_items now grace is (add_item (with_age now grace i) m)

  -- the part behind the loop
  unfoldable pub projected_debts : ℕ → ℕ → Map DebtItem → Map RequesterDebt
  projected_debts now grace debts =
      map (λ (k, d). (k, record d { items = sort_items d.items })) (add_items now grace debts [])

  module _ {Raw : Type 0} (raw_is_empty : Raw → Bool)
      (unmarshal : Raw → Option MailboxEventPayload) where
    unfoldable pub debt_step : Text → DebtFold → Event Raw → Option DebtFold
    debt_step session_name s e =
        if is_debt_event e.type
        then (elim (decode_mailbox_event_payload raw_is_empty unmarshal e.payload) [
          | none ↦ some s
          | some p ↦ some (on_debt_payload session_name e.type p e.occurred_at s)
        ])
        else some (record s { seen = see e.type s.seen })

    -- ProjectVerdictDebtState; `none` stands for a grace below zero
    unfoldable pub project_verdict_debt_state :
        ℕ
        → Option ℕ
        → Option SessionState
        → Text
        → List (CommittedRecord Raw)
        → Result ReplayError (Option (Map RequesterDebt))
    project_verdict_debt_state now grace session_file session_name records =
        elim (load_current_session_state session_file) [
          | none ↦ ok none
          | some state ↦ elim (replay records) [
            | err x ↦ err x
            | ok events ↦ elim (fold_current (debt_step session_name) state no_debts events) [
              | none ↦ ok none
              | some s ↦
                  let seconds : ℕ = elim grace [
                    | none ↦ default_stale_after_seconds
                    | some g ↦ g
                  ] in
                  if saw_all s.seen && s.saw_complete_mailbox_event
                  then ok (some (projected_debts now seconds s.debts))
                  else ok none
            ]
          ]
        ]
