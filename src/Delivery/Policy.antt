-- ===== src/Delivery/Policy.antt =====
-- internal/message/delivery_policy.go: what to do with a message, from the facts known so far.
use tmux_a2a_postman.Base.{
  ℕ, Bool, true, false, not, ◌&&◌, ◌||◌, [], if◌then◌else◌, Text, codes, ◌==◌, leb,
}
use tmux_a2a_postman.Filename.{MessageInfo}
use tmux_a2a_postman.Router.{Resolution, FailureReason, unknown_session}

pub data DeliveryAction : Type 0 where
  action_none deliver dead_letter : DeliveryAction

-- The dead-letter filename suffixes; `no_suffix` is the empty text.
pub data Suffix : Type 0 where
  no_suffix parse_error envelope_mismatch unknown_recipient unknown_session_suffix : Suffix
  unknown_sender routing_denied session_disabled foreign_session forged_sender queue_full : Suffix

-- The text that a suffix is in the source.
unfoldable pub suffix_text : Suffix → Text
suffix_text no_suffix = []
suffix_text parse_error = codes "-dl-parse-error"
suffix_text envelope_mismatch = codes "-dl-envelope-mismatch"
suffix_text unknown_recipient = codes "-dl-unknown-recipient"
suffix_text unknown_session_suffix = codes "-dl-unknown-session"
suffix_text unknown_sender = codes "-dl-unknown-sender"
suffix_text routing_denied = codes "-dl-routing-denied"
suffix_text session_disabled = codes "-dl-session-disabled"
suffix_text foreign_session = codes "-dl-foreign-session"
suffix_text forged_sender = codes "-dl-forged-sender"
suffix_text queue_full = codes "-dl-queue-full"

-- The reasons of notifications and events; `no_reason` is the empty text.
pub data Reason : Type 0 where
  no_reason parse_error_reason envelope_mismatch_reason unknown_session_reason : Reason
  unknown_recipient_reason foreign_session_reason unknown_sender_reason : Reason
  routing_denied_reason sender_disabled_reason recipient_disabled_reason : Reason
  queue_full_reason forged_sender_reason : Reason

-- The text that a reason is in the source.
unfoldable pub reason_text : Reason → Text
reason_text no_reason = []
reason_text parse_error_reason = codes "parse error"
reason_text envelope_mismatch_reason = codes "envelope mismatch"
reason_text unknown_session_reason = codes "unknown recipient session"
reason_text unknown_recipient_reason = codes "unknown recipient"
reason_text foreign_session_reason = codes "foreign session"
reason_text unknown_sender_reason = codes "unknown sender"
reason_text routing_denied_reason = codes "routing denied"
reason_text sender_disabled_reason = codes "sender session disabled"
reason_text recipient_disabled_reason = codes "recipient session disabled"
reason_text queue_full_reason = codes "inbox queue full"
reason_text forged_sender_reason = codes "forged sender"

pub record DeliveryDecision : Type 0 where
  pub action : DeliveryAction
  pub dead_letter_suffix : Suffix
  pub dead_letter_reason : Reason
  pub event_reason : Reason
  pub send_dead_letter_notification : Bool
  pub send_routing_warning : Bool

pub record DeliveryPolicyInput : Type 0 where
  pub filename : Text
  pub info : MessageInfo
  pub parse_error_seen : Bool
  pub source_session_name : Text
  pub daemon_session : Text
  pub envelope_checked : Bool
  pub envelope_mismatched : Bool
  pub recipient_resolved : Bool
  pub recipient_resolution : Resolution
  pub recipient_foreign : Bool
  pub sender_resolved : Bool
  pub sender_resolution : Resolution
  pub routing_checked : Bool
  pub routing_allowed : Bool
  pub sender_session_checked : Bool
  pub sender_session_enabled : Bool
  pub recipient_session_checked : Bool
  pub recipient_session_enabled : Bool
  pub queue_checked : Bool
  pub queue_count : ℕ
  pub queue_cap : ℕ

abbrev pub zero_decision : DeliveryDecision
zero_decision = record {
  action = action_none;
  dead_letter_suffix = no_suffix;
  dead_letter_reason = no_reason;
  event_reason = no_reason;
  send_dead_letter_notification = false;
  send_routing_warning = false;
}

-- A dead-letter decision with no notification and no warning.
abbrev pub silent : Suffix → Reason → DeliveryDecision
silent suffix event = record zero_decision {
  action = dead_letter;
  dead_letter_suffix = suffix;
  event_reason = event;
}

-- A dead-letter decision that the sender is told of; event and notification give one reason.
abbrev pub notified : Suffix → Reason → DeliveryDecision
notified suffix reason = record zero_decision {
  action = dead_letter;
  dead_letter_suffix = suffix;
  dead_letter_reason = reason;
  event_reason = reason;
  send_dead_letter_notification = true;
}

unfoldable pub forged_sender_decision : DeliveryDecision
forged_sender_decision = silent forged_sender forged_sender_reason

-- from == "postman", or from == "daemon" outside the daemon's own session
unfoldable pub is_forged : Text → Text → Text → Bool
is_forged from source_session_name daemon_session =
    (from == codes "postman")
    || ((from == codes "daemon")
        && (not (daemon_session == []) && not (source_session_name == daemon_session)))

unfoldable pub is_unknown_session : FailureReason → Bool
is_unknown_session unknown_session = true
is_unknown_session _ = false

unfoldable pub plan_delivery_policy : DeliveryPolicyInput → DeliveryDecision
unfolding forged_sender_decision is_unknown_session
plan_delivery_policy input =
    let not_daemon = not (input.info.from == codes "daemon") in
    if input.parse_error_seen
    then silent parse_error parse_error_reason
    else if is_forged input.info.from input.source_session_name input.daemon_session
    then forged_sender_decision
    else if input.envelope_checked && input.envelope_mismatched
    then notified envelope_mismatch envelope_mismatch_reason
    else if input.recipient_resolved && not input.recipient_resolution.found
    then (if is_unknown_session input.recipient_resolution.failure_reason
        then notified unknown_session_suffix unknown_session_reason
        else notified unknown_recipient unknown_recipient_reason)
    else if input.recipient_resolved && input.recipient_foreign
    then notified foreign_session foreign_session_reason
    else if input.sender_resolved && (not input.sender_resolution.found && not_daemon)
    then silent unknown_sender unknown_sender_reason
    else if input.routing_checked && (not_daemon && not input.routing_allowed)
    then record (silent routing_denied routing_denied_reason) { send_routing_warning = true }
    else if input.sender_session_checked && (not_daemon && not input.sender_session_enabled)
    then notified session_disabled sender_disabled_reason
    else if input.recipient_session_checked && (not_daemon && not input.recipient_session_enabled)
    then notified session_disabled recipient_disabled_reason
    else if input.queue_checked
    then (if leb input.queue_cap input.queue_count
        then notified queue_full queue_full_reason
        else record zero_decision { action = deliver })
    else zero_decision
