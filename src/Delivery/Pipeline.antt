-- ===== src/Delivery/Pipeline.antt =====
-- DeliverMessage of internal/message/message.go: its stages, and the effects that it has in their order.
use tmux_a2a_postman.Base.{Bool, true, not, none, some, [], ◌∷◌, ◌++◌, if◌then◌else◌, ◌==◌}
use tmux_a2a_postman.Address.{simple}
use tmux_a2a_postman.Filename.{MessageInfo, parse_message_filename}
use tmux_a2a_postman.Delivery.Policy.{DeliveryPolicyInput, plan_delivery_policy, is_forged}
use tmux_a2a_postman.Delivery.World.{
  World, content, gone, failed, Outcome, already_processed, stage, move_to_inbox,
  record_post_consumed, record_delivered, record_approval, sync_source, sync_recipient, notify_pane,
  update_send_activity, update_receive_activity, no_error, inbox_move_failed, dead_letter_quietly,
  dead_letter_and_notify, dead_letter_and_warn,
}
use tmux_a2a_postman.Delivery.Inputs.{
  not_daemon as is_not_daemon, recipient_resolution_of, sender_resolution_of, recipient_node,
  empty_input, input_info, input_envelope, input_recipient, input_foreign, input_sender,
  input_routing, input_sender_session, input_recipient_session, input_queue,
}

module _ (w : World) (info : MessageInfo) where
  abbrev not_daemon : Bool
  not_daemon = is_not_daemon w info

  -- What a delivered message causes, in order; a rename that fails is returned as an error, with nothing
  -- done.
  unfoldable pub deliver_to_inbox : Outcome
  deliver_to_inbox =
      if w.inbox_move_succeeds
      then record {
        effects =
            (move_to_inbox (recipient_node w info)
              ∷ record_post_consumed
              ∷ record_delivered
              ∷ record_approval
              ∷ sync_source
              ∷ [])
            ++ ((if (recipient_node w info).session_dir == w.source_session_dir
                  then []
                  else sync_recipient ∷ [])
                ++ (notify_pane
                    ∷ (if not_daemon
                        then update_send_activity (sender_resolution_of w info).address
                          ∷ update_receive_activity (recipient_resolution_of w info).address
                          ∷ []
                        else [])));
        error = no_error;
      }
      else record { effects = []; error = inbox_move_failed }

  -- From the inbox queue check on.
  unfoldable pub deliver_queued : Outcome
  deliver_queued = elim (w.count_inbox (recipient_node w info) (simple info.to)) [
    | none ↦ deliver_to_inbox
    | some n ↦ stage (input_queue w info) (dead_letter_and_notify w) deliver_to_inbox
  ]

  -- From the routing check on; all three checks are skipped for the daemon.
  unfoldable pub deliver_routed : Outcome
  deliver_routed =
      if not_daemon
      then stage (input_routing w info) (dead_letter_and_warn w) (
          stage (input_sender_session w info) (dead_letter_and_notify w)
            (stage (input_recipient_session w info) (dead_letter_and_notify w) deliver_queued))
      else deliver_queued

  -- From the resolution of the recipient on.
  unfoldable pub deliver_resolved : Outcome
  deliver_resolved = stage (input_recipient w info) (dead_letter_and_notify w) (
      stage (input_foreign w info) (dead_letter_and_notify w)
        (stage (input_sender w info) (dead_letter_quietly w) deliver_routed))

  -- The handler once the filename is parsed.
  unfoldable pub deliver_parsed : Outcome
  deliver_parsed =
      if is_forged info.from w.source_session_name w.daemon_session
      then dead_letter_quietly w (plan_delivery_policy (input_info w info))
      else if not_daemon
      then elim w.read_post [
        | gone ↦ already_processed
        | failed ↦ deliver_resolved
        | content text ↦ stage (input_envelope w info) (dead_letter_and_notify w) deliver_resolved
      ]
      else deliver_resolved

unfoldable pub parse_error_input : World → DeliveryPolicyInput
unfolding empty_input
parse_error_input w = record (empty_input w) {
  source_session_name = [];
  daemon_session = [];
  queue_cap = 0;
  parse_error_seen = true;
}

unfoldable pub deliver_message : World → Outcome
deliver_message w =
    if not w.post_exists then already_processed else elim (parse_message_filename w.filename) [
      | none ↦ dead_letter_quietly w (plan_delivery_policy (parse_error_input w))
      | some info ↦ deliver_parsed w info
    ]
