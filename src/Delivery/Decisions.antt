-- ===== src/Delivery/Decisions.antt =====
-- What the delivery policy of internal/message/delivery_policy.go guarantees.
use tmux_a2a_postman.Base.{◌<◌, ◌≡◌, ◌↔◌, true, false, arith, codes, ◌==◌, ◌⊎◌}
use tmux_a2a_postman.Delivery.Policy.{deliver, DeliveryPolicyInput, plan_delivery_policy, is_forged}

-- The sender is the daemon.
abbrev pub IsDaemon : DeliveryPolicyInput → Type 0
IsDaemon input = (input.info.from == codes "daemon") ≡ true

-- What a message must meet to be delivered, whatever the order of the checks.
pub record IsAdmitted (input : DeliveryPolicyInput) : Type 0 where
  pub parsed : input.parse_error_seen ≡ false
  pub not_forged : is_forged input.info.from input.source_session_name input.daemon_session ≡ false
  pub envelope : input.envelope_checked ≡ true → input.envelope_mismatched ≡ false
  pub recipient_found : input.recipient_resolved ≡ true → input.recipient_resolution.found ≡ true
  pub recipient_home : input.recipient_resolved ≡ true → input.recipient_foreign ≡ false
  pub sender_found :
      input.sender_resolved ≡ true → (input.sender_resolution.found ≡ true) ⊎ IsDaemon input
  pub routed : input.routing_checked ≡ true → (input.routing_allowed ≡ true) ⊎ IsDaemon input
  pub sender_on :
      input.sender_session_checked ≡ true → (input.sender_session_enabled ≡ true) ⊎ IsDaemon input
  pub recipient_on :
      input.recipient_session_checked ≡ true
      → (input.recipient_session_enabled ≡ true) ⊎ IsDaemon input
  pub queue_seen : input.queue_checked ≡ true
  pub queue_room : input.queue_count < input.queue_cap

module _ (input : DeliveryPolicyInput) (h : (plan_delivery_policy input).action ≡ deliver) where
  deliver-parsed : input.parse_error_seen ≡ false
  unfolding plan_delivery_policy
  deliver-parsed = ground arith

  deliver-not_forged :
      is_forged input.info.from input.source_session_name input.daemon_session ≡ false
  unfolding plan_delivery_policy
  deliver-not_forged = ground arith

  deliver-envelope : input.envelope_checked ≡ true → input.envelope_mismatched ≡ false
  unfolding plan_delivery_policy
  deliver-envelope = ground arith

  deliver-recipient_found :
      input.recipient_resolved ≡ true → input.recipient_resolution.found ≡ true
  unfolding plan_delivery_policy
  deliver-recipient_found = ground arith

  deliver-recipient_home : input.recipient_resolved ≡ true → input.recipient_foreign ≡ false
  unfolding plan_delivery_policy
  deliver-recipient_home = ground arith

  deliver-sender_found :
      input.sender_resolved ≡ true → (input.sender_resolution.found ≡ true) ⊎ IsDaemon input
  unfolding plan_delivery_policy
  deliver-sender_found = ground arith

  deliver-routed : input.routing_checked ≡ true → (input.routing_allowed ≡ true) ⊎ IsDaemon input
  unfolding plan_delivery_policy
  deliver-routed = ground arith

  deliver-sender_on :
      input.sender_session_checked ≡ true → (input.sender_session_enabled ≡ true) ⊎ IsDaemon input
  unfolding plan_delivery_policy
  deliver-sender_on = ground arith

  deliver-recipient_on :
      input.recipient_session_checked ≡ true
      → (input.recipient_session_enabled ≡ true) ⊎ IsDaemon input
  unfolding plan_delivery_policy
  deliver-recipient_on = ground arith

  deliver-queue_seen : input.queue_checked ≡ true
  unfolding plan_delivery_policy
  deliver-queue_seen = ground arith

  deliver-queue_room : input.queue_count < input.queue_cap
  unfolding plan_delivery_policy
  deliver-queue_room = ground arith

deliver-IsAdmitted :
    (input : DeliveryPolicyInput) → (plan_delivery_policy input).action ≡ deliver → IsAdmitted input
deliver-IsAdmitted input h = record {
  parsed = deliver-parsed input h;
  not_forged = deliver-not_forged input h;
  envelope = deliver-envelope input h;
  recipient_found = deliver-recipient_found input h;
  recipient_home = deliver-recipient_home input h;
  sender_found = deliver-sender_found input h;
  routed = deliver-routed input h;
  sender_on = deliver-sender_on input h;
  recipient_on = deliver-recipient_on input h;
  queue_seen = deliver-queue_seen input h;
  queue_room = deliver-queue_room input h;
}

IsAdmitted-deliver :
    (input : DeliveryPolicyInput) → IsAdmitted input → (plan_delivery_policy input).action ≡ deliver
unfolding plan_delivery_policy
IsAdmitted-deliver input h = ground arith

-- The policy delivers exactly the messages that pass every check, the inbox queue included.
pub plan-deliver_iff :
    (input : DeliveryPolicyInput)
    → ((plan_delivery_policy input).action ≡ deliver) ↔ IsAdmitted input
plan-deliver_iff input = (deliver-IsAdmitted input, IsAdmitted-deliver input)
