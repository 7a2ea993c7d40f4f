-- ===== src/Delivery/Safety.antt =====
-- What reaches an inbox: the promise "default deny" of DeliverMessage in internal/message/message.go.
use tmux_a2a_postman.Base.{
  none, Option, count_if, ℕ, ◌<◌, ◌≡◌, Bool, true, false, not, ◌&&◌, arith, Text, codes, ◌==◌, [],
  ◌⊎◌, Bool-cases, inl, inr, some, any, eq_of_beq,
}
use tmux_a2a_postman.Address.{simple}
use tmux_a2a_postman.Filename.{MessageInfo, parse_message_filename}
use tmux_a2a_postman.Delivery.Policy.{
  DeliveryPolicyInput, DeliveryDecision, plan_delivery_policy, is_forged,
}
use tmux_a2a_postman.Delivery.World.{
  move_to_dead_letter, dead_letter_quietly, World, Effect, move_to_inbox, Outcome,
  notification_effects, event_effects, move_for_decision, inbox_queue_cap, no_error,
  inbox_move_failed, dead_letter_move_failed,
}
use tmux_a2a_postman.Delivery.Inputs.{
  not_daemon, empty_input, input_info, input_envelope, input_recipient, input_foreign, input_sender,
  input_routing, input_sender_session, input_recipient_session, input_queue, recipient_node,
  recipient_resolution_of, sender_resolution_of, routing_is_allowed,
}
use tmux_a2a_postman.Delivery.Pipeline.{
  parse_error_input, deliver_to_inbox, deliver_message, deliver_parsed,
}
use tmux_a2a_postman.Delivery.Stages.{ends}
use tmux_a2a_postman.Delivery.Staging.{
  is_gone, deliver_parsed-eq-settle, dead_letter_outcome, vanished, settle,
}

abbrev pub is_inbox_move : Effect → Bool
is_inbox_move (move_to_inbox n) = true
is_inbox_move _ = false

abbrev pub moves_to_inbox : Outcome → Bool
moves_to_inbox o = any is_inbox_move o.effects

-- What must hold of a message that reaches an inbox.
pub record IsAllowed (w : World) (info : MessageInfo) : Type 0 where
  pub not_forged : is_forged info.from w.source_session_name w.daemon_session ≡ false
  pub recipient_found : (recipient_resolution_of w info).found ≡ true
  pub recipient_home :
      (w.daemon_session ≡ [])
      ⊎ (((recipient_node w info).session_name ≡ w.daemon_session)
          ⊎ (w.is_session_enabled (recipient_node w info).session_name ≡ true))
  pub sender_known : not_daemon w info ≡ true → (sender_resolution_of w info).found ≡ true
  pub routed :
      not_daemon w info ≡ true
      → routing_is_allowed w info
          (sender_resolution_of w info).address
          (recipient_resolution_of w info).address
        ≡ true
  pub sender_on : not_daemon w info ≡ true → w.is_session_enabled w.source_session_name ≡ true
  pub recipient_on :
      not_daemon w info ≡ true → w.is_session_enabled (recipient_node w info).session_name ≡ true
  pub queue_room :
      (n : ℕ)
      → w.count_inbox (recipient_node w info) (simple info.to) ≡ some n
      → n < inbox_queue_cap

module _ (w : World) (d : DeliveryDecision) where
  no_move_event : any is_inbox_move (event_effects d) ≡ false
  unfolding any event_effects
  no_move_event = ground arith

  no_move_outcome : moves_to_inbox (dead_letter_outcome w d) ≡ false
  unfolding any event_effects notification_effects move_for_decision
  no_move_outcome = ground arith

home_of :
    (daemon session : Text) (enabled : Bool)
    → not (daemon == []) && (not (session == daemon) && not enabled) ≡ false
    → (daemon ≡ []) ⊎ ((session ≡ daemon) ⊎ (enabled ≡ true))
home_of daemon session enabled h = ground (arith, eq_of_beq daemon [], eq_of_beq session daemon)

module _ (i : DeliveryPolicyInput) (open_end : ends i ≡ false) where
  passed_forged : is_forged i.info.from i.source_session_name i.daemon_session ≡ false
  unfolding plan_delivery_policy
  passed_forged = ground arith

  passed_recipient :
      i.recipient_resolved ≡ true
      → (i.recipient_resolution.found ≡ true) × (i.recipient_foreign ≡ false)
  unfolding plan_delivery_policy
  passed_recipient h = ground arith

  passed_sender :
      not (i.info.from == codes "daemon") ≡ true
      → i.sender_resolved ≡ true
      → i.sender_resolution.found ≡ true
  unfolding plan_delivery_policy
  passed_sender d h = ground arith

  passed_checks :
      not (i.info.from == codes "daemon") ≡ true
      → (i.routing_checked ≡ true → i.routing_allowed ≡ true)
        × (i.sender_session_checked ≡ true → i.sender_session_enabled ≡ true)
        × (i.recipient_session_checked ≡ true → i.recipient_session_enabled ≡ true)
  unfolding plan_delivery_policy
  passed_checks d = ground arith

  passed_queue : i.queue_checked ≡ true → i.queue_count < i.queue_cap
  unfolding plan_delivery_policy
  passed_queue h = ground arith

module _ (w : World) (info : MessageInfo) where
  -- the fields that the last stage hands to the policy
  info_fields :
      let f = input_queue w info in
      (f.info ≡ info)
      × (f.source_session_name ≡ w.source_session_name)
      × (f.daemon_session ≡ w.daemon_session)
      × (f.queue_cap ≡ inbox_queue_cap)
  unfolding input_queue input_recipient_session input_sender_session input_routing input_sender
      input_foreign input_recipient input_envelope input_info empty_input
  info_fields = ground arith

  address_fields :
      let f = input_queue w info in
      (f.recipient_resolved ≡ true)
      × (f.recipient_resolution ≡ recipient_resolution_of w info)
      × (f.sender_resolved ≡ true)
      × (f.sender_resolution ≡ sender_resolution_of w info)
      × (f.recipient_foreign
          ≡ not (w.daemon_session == [])
            && (not ((recipient_node w info).session_name == w.daemon_session)
                && not (w.is_session_enabled (recipient_node w info).session_name)))
  unfolding input_queue input_recipient_session input_sender_session input_routing input_sender
      input_foreign input_recipient
  address_fields = ground arith

  check_fields :
      not_daemon w info ≡ true
      → let f = input_queue w info in
        (f.routing_checked ≡ true)
        × (f.routing_allowed
            ≡ routing_is_allowed w info
                (sender_resolution_of w info).address
                (recipient_resolution_of w info).address)
        × (f.sender_session_checked ≡ true)
        × (f.sender_session_enabled ≡ w.is_session_enabled w.source_session_name)
        × (f.recipient_session_checked ≡ true)
        × (f.recipient_session_enabled ≡ w.is_session_enabled (recipient_node w info).session_name)
  unfolding input_queue input_recipient_session input_sender_session input_routing
  check_fields d = ground arith

  queue_fields :
      (n : ℕ)
      → w.count_inbox (recipient_node w info) (simple info.to) ≡ some n
      → ((input_queue w info).queue_checked ≡ true) × ((input_queue w info).queue_count ≡ n)
  unfolding input_queue
  queue_fields n h = ground arith

  not_daemon_field :
      not_daemon w info ≡ true → not ((input_queue w info).info.from == codes "daemon") ≡ true
  not_daemon_field h = rw info_fields.0 h

  settled-IsAllowed : ends (input_queue w info) ≡ false → IsAllowed w info
  settled-IsAllowed e =
      let f = input_queue w info in
      let info_f = info_fields in
      let addr = address_fields in
      let recipient = passed_recipient f e addr.0 in
      record {
        not_forged = cc (passed_forged f e, info_f.0, info_f.1, info_f.2);
        recipient_found = cc (recipient.0, addr.1);
        recipient_home = home_of _ _ _ (cc (recipient.1, addr.4));
        sender_known = λ d. cc (passed_sender f e (not_daemon_field d) addr.2, addr.3);
        routed =
            λ d. let c = check_fields d in cc ((passed_checks f e (not_daemon_field d)).0 c.0, c.1);
        sender_on =
            λ d. let c = check_fields d in cc ((passed_checks f e (not_daemon_field d)).1 c.2, c.3);
        recipient_on =
            λ d. let c = check_fields d in cc ((passed_checks f e (not_daemon_field d)).2 c.4, c.5);
        queue_room =
            λ n h. let q = queue_fields n h in omega (arith, passed_queue f e q.0, q.1, info_f.3);
      }

  settle-IsAllowed : moves_to_inbox (settle w info (input_queue w info)) ≡ true → IsAllowed w info
  settle-IsAllowed h = elim (Bool-cases (ends (input_queue w info))) [
    | inl e ↦ cc (rw e at h, no_move_outcome w (plan_delivery_policy (input_queue w info)))
    | inr e ↦ settled-IsAllowed e
  ]

  parsed-IsAllowed : moves_to_inbox (deliver_parsed w info) ≡ true → IsAllowed w info
  unfolding any
  parsed-IsAllowed h = elim (Bool-cases (vanished w info)) [
    | inl e ↦ cc (rw (deliver_parsed-eq-settle, e) at h)
    | inr e ↦ settle-IsAllowed (rw (deliver_parsed-eq-settle, e) at h)
  ]

-- A message is moved into an inbox only if its sender is not forged, its recipient is found and at
-- home, the inbox, where its messages can be counted, holds fewer than the cap, and, unless the
-- daemon is the sender, the sender is known, an edge allows the route and both sessions are enabled.
pub deliver_message_default_deny :
    (w : World) (info : MessageInfo)
    → parse_message_filename w.filename ≡ some info
    → moves_to_inbox (deliver_message w) ≡ true
    → IsAllowed w info
unfolding deliver_message any
deliver_message_default_deny w info p h = elim (Bool-cases w.post_exists) [
  | inl e ↦ parsed-IsAllowed w info (rw (e, p) at h)
  | inr e ↦ cc (rw e at h)
]

abbrev pub is_move : Effect → Bool
is_move (move_to_inbox n) = true
is_move (move_to_dead_letter s) = true
is_move _ = false

-- The post file is moved once and no error is returned, or the rename that was due fails, nothing is
-- moved and the error says so.
abbrev pub IsMovedOnce : World → Outcome → Type 0
IsMovedOnce w o =
    ((count_if is_move o.effects ≡ 1) × (o.error ≡ no_error))
    ⊎ (((count_if is_move o.effects ≡ 0)
          × (o.error ≡ inbox_move_failed)
          × (w.inbox_move_succeeds ≡ false))
        ⊎ ((count_if is_move o.effects ≡ 0)
            × (o.error ≡ dead_letter_move_failed)
            × (w.dead_letter_move_succeeds ≡ false)))

module _ (w : World) where
  one_move_dead_letter : (d : DeliveryDecision) → IsMovedOnce w (dead_letter_outcome w d)
  unfolding count_if event_effects notification_effects move_for_decision
  one_move_dead_letter d = ground arith

  one_move_quiet : (d : DeliveryDecision) → IsMovedOnce w (dead_letter_quietly w d)
  unfolding count_if event_effects move_for_decision dead_letter_quietly
  one_move_quiet d = ground arith

  one_move_inbox : (info : MessageInfo) → IsMovedOnce w (deliver_to_inbox w info)
  unfolding count_if deliver_to_inbox
  one_move_inbox info = ground arith

  one_move_settle : (info : MessageInfo) (f : DeliveryPolicyInput) → IsMovedOnce w (settle w info f)
  one_move_settle info f = elim (Bool-cases (ends f)) [
    | inl e ↦ rw e (one_move_dead_letter (plan_delivery_policy f))
    | inr e ↦ rw e (one_move_inbox info)
  ]

  one_move_parsed :
      (info : MessageInfo) → is_gone w.read_post ≡ false → IsMovedOnce w (deliver_parsed w info)
  one_move_parsed info h =
      let here : vanished w info ≡ false = ground arith in
      rw (deliver_parsed-eq-settle, here) (one_move_settle info (input_queue w info))

  -- A post file that exists, and does not vanish while it is read, is moved exactly once, to the
  -- inbox or to the dead letters, whatever its name and its content, and no error is returned; unless
  -- the rename fails, when nothing is moved and the error of that rename is returned.
  pub deliver_message_moves_once :
      w.post_exists ≡ true → is_gone w.read_post ≡ false → IsMovedOnce w (deliver_message w)
  unfolding deliver_message
  deliver_message_moves_once e g = rw e (moved (parse_message_filename w.filename))
    where
      moved :
          (p : Option MessageInfo)
          → IsMovedOnce w (elim p as (λ _. Outcome) [
            | none ↦ dead_letter_quietly w (plan_delivery_policy (parse_error_input w))
            | some info ↦ deliver_parsed w info
          ])
      moved none = one_move_quiet (plan_delivery_policy (parse_error_input w))
      moved (some info) = one_move_parsed info g
