-- ===== src/Delivery/Stages.antt =====
-- How one more fact changes the policy of internal/message/delivery_policy.go: a decision that ends
-- the handler stays, and the checks of a stage are silent about routing.
use tmux_a2a_postman.Base.{Option, none, some, Text, refl, ℕ, ◌≡◌, Bool, true, false, arith}
use tmux_a2a_postman.Router.{Resolution}
use tmux_a2a_postman.Delivery.Policy.{DeliveryPolicyInput, plan_delivery_policy, is_forged}
use tmux_a2a_postman.Delivery.World.{is_dead_letter, ReadResult, content, gone, failed}
use tmux_a2a_postman.Delivery.Inputs.{
  add_envelope, add_routing, add_sender_session, add_recipient_session, add_queue,
}

abbrev pub ends : DeliveryPolicyInput → Bool
ends i = is_dead_letter (plan_delivery_policy i).action

-- A decision that ends the handler stays when more facts are known.
abbrev pub IsKept : DeliveryPolicyInput → DeliveryPolicyInput → Type 0
IsKept a b = ends a ≡ true → plan_delivery_policy b ≡ plan_delivery_policy a

-- A new fact leads to no routing warning.
abbrev pub IsQuiet : DeliveryPolicyInput → DeliveryPolicyInput → Type 0
IsQuiet a b = ends a ≡ false → (plan_delivery_policy b).send_routing_warning ≡ false

-- What is not yet checked behind each stage.
abbrev pub NoSessions : DeliveryPolicyInput → Type 0
NoSessions i =
    (i.sender_session_checked ≡ false)
    × (i.recipient_session_checked ≡ false)
    × (i.queue_checked ≡ false)

abbrev pub NoRouting : DeliveryPolicyInput → Type 0
NoRouting i = (i.routing_checked ≡ false) × NoSessions i

abbrev pub NoSender : DeliveryPolicyInput → Type 0
NoSender i = (i.sender_resolved ≡ false) × NoRouting i

abbrev pub NoRecipient : DeliveryPolicyInput → Type 0
NoRecipient i = (i.recipient_resolved ≡ false) × NoSender i

module _ (i : DeliveryPolicyInput) where
  pub keep_queue :
      (n : ℕ)
      → i.queue_checked ≡ false
      → IsKept i (record i { queue_checked = true; queue_count = n })
  unfolding plan_delivery_policy
  keep_queue n h k = ground arith

  pub IsQuiet-queue :
      (n : ℕ)
      → i.queue_checked ≡ false
      → IsQuiet i (record i { queue_checked = true; queue_count = n })
  unfolding plan_delivery_policy
  IsQuiet-queue n h k = ground arith

  pub keep_recipient_session :
      (b : Bool)
      → i.recipient_session_checked ≡ false
      → i.queue_checked ≡ false
      → IsKept i (record i { recipient_session_checked = true; recipient_session_enabled = b })
  unfolding plan_delivery_policy
  keep_recipient_session b h q k = ground arith

  pub IsQuiet-recipient_session :
      (b : Bool)
      → i.recipient_session_checked ≡ false
      → i.queue_checked ≡ false
      → IsQuiet i (record i { recipient_session_checked = true; recipient_session_enabled = b })
  unfolding plan_delivery_policy
  IsQuiet-recipient_session b h q k = ground arith

  pub keep_sender_session :
      (b : Bool)
      → NoSessions i
      → IsKept i (record i { sender_session_checked = true; sender_session_enabled = b })
  unfolding plan_delivery_policy
  keep_sender_session b h k = ground arith

  pub IsQuiet-sender_session :
      (b : Bool)
      → NoSessions i
      → IsQuiet i (record i { sender_session_checked = true; sender_session_enabled = b })
  unfolding plan_delivery_policy
  IsQuiet-sender_session b h k = ground arith

  pub keep_routing :
      (b : Bool) → NoRouting i → IsKept i (record i { routing_checked = true; routing_allowed = b })
  unfolding plan_delivery_policy
  keep_routing b h k = ground arith

  pub keep_sender :
      (r : Resolution)
      → NoSender i
      → IsKept i (record i { sender_resolved = true; sender_resolution = r })
  unfolding plan_delivery_policy
  keep_sender r h k = ground arith

  -- an unknown sender is dead-lettered with neither a warning nor a notification
  pub quiet_sender :
      (r : Resolution)
      → NoSender i
      → ends i ≡ false
      → let d = plan_delivery_policy (record i { sender_resolved = true; sender_resolution = r }) in
        (d.send_routing_warning ≡ false) × (d.send_dead_letter_notification ≡ false)
  unfolding plan_delivery_policy
  quiet_sender r h k = ground arith

  pub keep_foreign :
      (b : Bool)
      → i.recipient_foreign ≡ false
      → NoSender i
      → IsKept i (record i { recipient_foreign = b })
  unfolding plan_delivery_policy
  keep_foreign b f h k = ground arith

  pub IsQuiet-foreign :
      (b : Bool)
      → i.recipient_foreign ≡ false
      → NoSender i
      → IsQuiet i (record i { recipient_foreign = b })
  unfolding plan_delivery_policy
  IsQuiet-foreign b f h k = ground arith

  pub keep_recipient :
      (r : Resolution)
      → NoRecipient i
      → IsKept i (record i { recipient_resolved = true; recipient_resolution = r })
  unfolding plan_delivery_policy
  keep_recipient r h k = ground arith

  pub IsQuiet-recipient :
      (r : Resolution)
      → i.recipient_foreign ≡ false
      → NoRecipient i
      → IsQuiet i (record i { recipient_resolved = true; recipient_resolution = r })
  unfolding plan_delivery_policy
  IsQuiet-recipient r f h k = ground arith

  pub keep_envelope :
      (b : Bool)
      → i.envelope_checked ≡ false
      → NoRecipient i
      → IsKept i (record i { envelope_checked = true; envelope_mismatched = b })
  unfolding plan_delivery_policy
  keep_envelope b c h k = ground arith

  pub IsQuiet-envelope :
      (b : Bool)
      → i.envelope_checked ≡ false
      → NoRecipient i
      → IsQuiet i (record i { envelope_checked = true; envelope_mismatched = b })
  unfolding plan_delivery_policy
  IsQuiet-envelope b c h k = ground arith

  -- before any check only a forged sender ends the handler
  pub ends_forged :
      i.parse_error_seen ≡ false
      → i.envelope_checked ≡ false
      → NoRecipient i
      → (ends i ≡ is_forged i.info.from i.source_session_name i.daemon_session)
        × (((plan_delivery_policy i).send_routing_warning ≡ false)
            × ((plan_delivery_policy i).send_dead_letter_notification ≡ false))
  unfolding plan_delivery_policy
  ends_forged p c h = ground arith

  -- denied routing is dead-lettered without a notification
  pub quiet_routing :
      (b : Bool)
      → NoRouting i
      → ends i ≡ false
      → let d = plan_delivery_policy (record i { routing_checked = true; routing_allowed = b }) in
        d.send_dead_letter_notification ≡ false
  unfolding plan_delivery_policy
  quiet_routing b h k = ground arith

-- The same for the stages with a condition.
module _ (i : DeliveryPolicyInput) where
  pub IsKept-add_envelope :
      (b : Bool) (r : ReadResult) (f : Text → Bool)
      → i.envelope_checked ≡ false
      → NoRecipient i
      → IsKept i (add_envelope b r f i)
  IsKept-add_envelope false r f c h k = refl
  IsKept-add_envelope true (content t) f c h k = keep_envelope i (f t) c h k
  IsKept-add_envelope true gone f c h k = refl
  IsKept-add_envelope true failed f c h k = refl

  pub IsKept-add_routing : (b allowed : Bool) → NoRouting i → IsKept i (add_routing b allowed i)
  IsKept-add_routing false a h k = refl
  IsKept-add_routing true a h k = keep_routing i a h k

  pub IsKept-add_sender_session :
      (b on : Bool) → NoSessions i → IsKept i (add_sender_session b on i)
  IsKept-add_sender_session false a h k = refl
  IsKept-add_sender_session true a h k = keep_sender_session i a h k

  pub IsKept-add_recipient_session :
      (b on : Bool)
      → i.recipient_session_checked ≡ false
      → i.queue_checked ≡ false
      → IsKept i (add_recipient_session b on i)
  IsKept-add_recipient_session false a h q k = refl
  IsKept-add_recipient_session true a h q k = keep_recipient_session i a h q k

  pub IsKept-add_queue : (n : Option ℕ) → i.queue_checked ≡ false → IsKept i (add_queue n i)
  IsKept-add_queue none h k = refl
  IsKept-add_queue (some n) h k = keep_queue i n h k

pub IsKept-trans : (a b c : DeliveryPolicyInput) → IsKept a b → IsKept b c → IsKept a c
IsKept-trans a b c h k e = ground (arith, h e)
