-- ===== src/Delivery/World.antt =====
-- What DeliverMessage of internal/message/message.go reads of its surroundings (`World`) and what it
-- does to them (`Effect`). The file system, the session switch and the frontmatter reader are
-- arguments.
use tmux_a2a_postman.Base.{
  ℕ, Bool, true, false, Option, List, [], ◌∷◌, ◌++◌, if◌then◌else◌, Text, Map,
}
use tmux_a2a_postman.Router.{NodeInfo}
use tmux_a2a_postman.Delivery.Policy.{
  DeliveryDecision, DeliveryAction, dead_letter, DeliveryPolicyInput, Suffix, Reason, no_reason,
  plan_delivery_policy,
}

-- What reading the post file gives: it may be gone, or fail otherwise.
pub data ReadResult : Type 0 where
  content : Text → ReadResult
  gone : ReadResult
  failed : ReadResult

pub record World : Type 0 where
  pub filename : Text
  pub source_session_name : Text
  pub source_session_dir : Text
  pub daemon_session : Text
  pub known_nodes : Map NodeInfo
  pub adjacency : Map (List Text)
  pub post_exists : Bool
  pub read_post : ReadResult
  -- parseEnvelopeFromTo: the sender and the recipient of the frontmatter, `none` for an error
  pub envelope_from_to : Text → Option (Text × Text)
  pub is_session_enabled : Text → Bool
  -- countInboxMessages of the recipient's inbox, `none` for an error
  pub count_inbox : NodeInfo → Text → Option ℕ
  pub dead_letter_move_succeeds : Bool
  pub inbox_move_succeeds : Bool

pub data Effect : Type 0 where
  notify_sender : Reason → Effect  -- sendDeadLetterNotification, with its reason
  warn_routing : Effect  -- writeRoutingDeniedWarning
  emit_event : Reason → Effect  -- emitDeliveryDecisionEvent, with its reason
  move_to_dead_letter : Suffix → Effect  -- the rename, once it has succeeded
  record_dead_lettered : Effect
  move_to_inbox : NodeInfo → Effect  -- the rename, once it has succeeded
  record_post_consumed record_delivered record_approval : Effect
  sync_source sync_recipient notify_pane : Effect
  update_send_activity update_receive_activity : Text → Effect

pub data DeliveryError : Type 0 where
  no_error dead_letter_move_failed inbox_move_failed : DeliveryError

pub record Outcome : Type 0 where
  pub effects : List Effect
  pub error : DeliveryError

-- return nil with nothing done
abbrev pub already_processed : Outcome
already_processed = record { effects = []; error = no_error }

abbrev pub inbox_queue_cap : ℕ
inbox_queue_cap = 20

-- emitDeliveryDecisionEvent
unfoldable pub event_effects : DeliveryDecision → List Effect
event_effects d = elim d.event_reason [ no_reason ↦ [] | r ↦ emit_event r ∷ [] ]

-- `if decision.SendDeadLetterNotification { sendDeadLetterNotification(…) }`
unfoldable pub notification_effects : DeliveryDecision → List Effect
notification_effects d =
    if d.send_dead_letter_notification then notify_sender d.dead_letter_reason ∷ [] else []

-- moveToDeadLetterForDecision behind the effects so far: a move that fails leaves the post file where it
-- is, is returned as an error, and nothing is recorded.
unfoldable pub move_for_decision : World → List Effect → DeliveryDecision → Outcome
move_for_decision w before d =
    if w.dead_letter_move_succeeds
    then record {
      effects = before ++ move_to_dead_letter d.dead_letter_suffix ∷ record_dead_lettered ∷ [];
      error = no_error;
    }
    else record { effects = before; error = dead_letter_move_failed }

-- The three forms in which the stages dead-letter.
unfoldable pub dead_letter_quietly : World → DeliveryDecision → Outcome
unfolding event_effects move_for_decision
dead_letter_quietly w d = move_for_decision w (event_effects d) d

unfoldable pub dead_letter_and_notify : World → DeliveryDecision → Outcome
unfolding event_effects notification_effects move_for_decision
dead_letter_and_notify w d = move_for_decision w (notification_effects d ++ event_effects d) d

unfoldable pub dead_letter_and_warn : World → DeliveryDecision → Outcome
unfolding event_effects move_for_decision
dead_letter_and_warn w d =
    move_for_decision w
      ((if d.send_routing_warning then warn_routing ∷ [] else []) ++ event_effects d) d

abbrev pub is_dead_letter : DeliveryAction → Bool
is_dead_letter dead_letter = true
is_dead_letter _ = false

-- One stage: plan on what is known, dead-letter by the stage's form, or go on.
unfoldable pub stage : DeliveryPolicyInput → (DeliveryDecision → Outcome) → Outcome → Outcome
stage input reject next =
    let d = plan_delivery_policy input in if is_dead_letter d.action then reject d else next
