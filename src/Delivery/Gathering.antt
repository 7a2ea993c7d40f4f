-- ===== src/Delivery/Gathering.antt =====
-- The facts that DeliverMessage of internal/message/message.go gathers: what is unchecked before each
-- stage, and that a decision which ends the handler at a stage is that of the last stage.
use tmux_a2a_postman.Base.{◌≡◌, false, arith}
use tmux_a2a_postman.Filename.{MessageInfo}
use tmux_a2a_postman.Delivery.World.{World}
use tmux_a2a_postman.Delivery.Inputs.{
  empty_input, input_info, input_envelope, input_recipient, input_foreign, input_sender,
  input_routing, input_sender_session, input_recipient_session, input_queue,
}
use tmux_a2a_postman.Delivery.Stages.{
  IsKept, NoSessions, NoRouting, NoSender, NoRecipient, keep_sender, keep_foreign, keep_recipient,
  IsKept-trans, IsKept-add_envelope, IsKept-add_routing, IsKept-add_sender_session,
  IsKept-add_recipient_session, IsKept-add_queue,
}

module _ (w : World) (info : MessageInfo) where
  -- nothing is checked before it is asked
  pub info_rest : NoRecipient (input_info w info)
  unfolding input_info empty_input
  info_rest = ground arith

  pub info_flags :
      ((input_info w info).parse_error_seen ≡ false)
      × ((input_info w info).envelope_checked ≡ false)
      × ((input_info w info).recipient_foreign ≡ false)
  unfolding input_info empty_input
  info_flags = ground arith

  pub envelope_rest : NoRecipient (input_envelope w info)
  unfolding input_envelope
  envelope_rest = ground (arith, info_rest)

  pub foreign_unset : (input_envelope w info).recipient_foreign ≡ false
  unfolding input_envelope
  foreign_unset = ground (arith, info_flags)

  pub recipient_rest : NoSender (input_recipient w info)
  unfolding input_recipient
  recipient_rest = ground (arith, envelope_rest)

  pub foreign_rest : NoSender (input_foreign w info)
  unfolding input_foreign
  foreign_rest = ground (arith, recipient_rest)

  pub sender_rest : NoRouting (input_sender w info)
  unfolding input_sender
  sender_rest = ground (arith, foreign_rest)

  pub routing_rest : NoSessions (input_routing w info)
  unfolding input_routing
  routing_rest = ground (arith, sender_rest)

  pub sender_session_rest :
      ((input_sender_session w info).recipient_session_checked ≡ false)
      × ((input_sender_session w info).queue_checked ≡ false)
  unfolding input_sender_session
  sender_session_rest = ground (arith, routing_rest)

  pub recipient_session_rest : (input_recipient_session w info).queue_checked ≡ false
  unfolding input_recipient_session
  recipient_session_rest = ground (arith, sender_session_rest)

  -- a decision that ends the handler at a stage is that of the last stage
  pub IsKept-recipient_session : IsKept (input_recipient_session w info) (input_queue w info)
  unfolding input_queue
  IsKept-recipient_session =
      IsKept-add_queue (input_recipient_session w info) _ recipient_session_rest

  pub IsKept-sender_session : IsKept (input_sender_session w info) (input_queue w info)
  unfolding input_recipient_session
  IsKept-sender_session =
      IsKept-trans (input_sender_session w info) (input_recipient_session w info)
        (input_queue w info)
        (IsKept-add_recipient_session (input_sender_session w info) _ _ sender_session_rest.0
          sender_session_rest.1)
        IsKept-recipient_session

  pub IsKept-routing : IsKept (input_routing w info) (input_queue w info)
  unfolding input_sender_session
  IsKept-routing =
      IsKept-trans (input_routing w info) (input_sender_session w info) (input_queue w info)
        (IsKept-add_sender_session (input_routing w info) _ _ routing_rest) IsKept-sender_session

  pub IsKept-sender : IsKept (input_sender w info) (input_queue w info)
  unfolding input_routing
  IsKept-sender =
      IsKept-trans (input_sender w info) (input_routing w info) (input_queue w info)
        (IsKept-add_routing (input_sender w info) _ _ sender_rest) IsKept-routing

  pub IsKept-foreign : IsKept (input_foreign w info) (input_queue w info)
  unfolding input_sender
  IsKept-foreign =
      IsKept-trans (input_foreign w info) (input_sender w info) (input_queue w info)
        (keep_sender (input_foreign w info) _ foreign_rest) IsKept-sender

  pub IsKept-recipient : IsKept (input_recipient w info) (input_queue w info)
  unfolding input_foreign
  IsKept-recipient =
      IsKept-trans (input_recipient w info) (input_foreign w info) (input_queue w info)
        (keep_foreign (input_recipient w info) _ (unfold input_recipient in foreign_unset)
          recipient_rest)
        IsKept-foreign

  pub IsKept-envelope : IsKept (input_envelope w info) (input_queue w info)
  unfolding input_recipient
  IsKept-envelope =
      IsKept-trans (input_envelope w info) (input_recipient w info) (input_queue w info)
        (keep_recipient (input_envelope w info) _ envelope_rest) IsKept-recipient

  pub IsKept-info : IsKept (input_info w info) (input_queue w info)
  unfolding input_envelope
  IsKept-info =
      IsKept-trans (input_info w info) (input_envelope w info) (input_queue w info)
        (IsKept-add_envelope (input_info w info) _ _ _ info_flags.1 info_rest) IsKept-envelope
