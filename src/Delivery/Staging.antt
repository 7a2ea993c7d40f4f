-- ===== src/Delivery/Staging.antt =====
-- DeliverMessage plans afresh at every stage, on what it knows by then. All that planning comes to one
-- decision, on all the facts: internal/message/message.go.
use tmux_a2a_postman.Base.{
  ℕ, ◌≡◌, Bool, true, false, not, ◌&&◌, [], if◌then◌else◌, Bool-cases, inl, inr, refl, Option, some,
  none, ◌++◌, ◌∷◌, ◌∙◌,
}
use tmux_a2a_postman.Filename.{MessageInfo}
use tmux_a2a_postman.Delivery.Policy.{
  DeliveryPolicyInput, DeliveryDecision, plan_delivery_policy, is_forged,
}
use tmux_a2a_postman.Delivery.World.{
  World, ReadResult, content, gone, failed, Outcome, stage, dead_letter_quietly,
  dead_letter_and_notify, dead_letter_and_warn, already_processed, notification_effects,
  event_effects, move_for_decision, warn_routing,
}
use tmux_a2a_postman.Delivery.Inputs.{
  add_envelope, envelope_mismatch_seen, add_queue, not_daemon, empty_input, input_info,
  input_envelope, input_recipient, input_foreign, input_sender, input_routing, input_sender_session,
  input_recipient_session, input_queue,
}
use tmux_a2a_postman.Delivery.Pipeline.{
  deliver_to_inbox, deliver_queued, deliver_routed, deliver_resolved, deliver_parsed,
}
use tmux_a2a_postman.Delivery.Stages.{
  ends, IsKept, IsQuiet, IsQuiet-queue, IsQuiet-recipient_session, IsQuiet-sender_session,
  quiet_routing, quiet_sender, IsQuiet-foreign, IsQuiet-recipient, IsQuiet-envelope, ends_forged,
}
use tmux_a2a_postman.Delivery.Gathering.{
  info_rest, info_flags, envelope_rest, foreign_unset, recipient_rest, foreign_rest, sender_rest,
  routing_rest, sender_session_rest, recipient_session_rest, IsKept-recipient_session,
  IsKept-sender_session, IsKept-routing, IsKept-sender, IsKept-foreign, IsKept-recipient,
  IsKept-envelope, IsKept-info,
}

abbrev pub is_gone : ReadResult → Bool
is_gone gone = true
is_gone _ = false

-- What a decision to dead-letter causes, at whatever stage it is made.
abbrev pub dead_letter_outcome : World → DeliveryDecision → Outcome
dead_letter_outcome w d =
    move_for_decision w
      (notification_effects d
        ++ ((if d.send_routing_warning then warn_routing ∷ [] else []) ++ event_effects d))
      d

module _ (w : World) (d : DeliveryDecision) where
  and_notify_lem :
      d.send_routing_warning ≡ false → dead_letter_and_notify w d ≡ dead_letter_outcome w d
  unfolding dead_letter_and_notify
  and_notify_lem h = rw h

  and_warn_lem :
      d.send_dead_letter_notification ≡ false → dead_letter_and_warn w d ≡ dead_letter_outcome w d
  unfolding dead_letter_and_warn notification_effects
  and_warn_lem h = rw h

  quietly_lem :
      (d.send_routing_warning ≡ false) × (d.send_dead_letter_notification ≡ false)
      → dead_letter_quietly w d ≡ dead_letter_outcome w d
  unfolding dead_letter_quietly notification_effects
  quietly_lem h = rw (h.0, h.1)

module _ (w : World) (info : MessageInfo) where
  -- what one decision on all the facts comes to
  abbrev pub settle : DeliveryPolicyInput → Outcome
  settle f =
      if ends f then dead_letter_outcome w (plan_delivery_policy f) else deliver_to_inbox w info

  stage_lem :
      (cur f : DeliveryPolicyInput) (reject : DeliveryDecision → Outcome) (next : Outcome)
      → IsKept cur f
      → (ends cur ≡ true
          → reject (plan_delivery_policy cur) ≡ dead_letter_outcome w (plan_delivery_policy cur))
      → (ends cur ≡ false → next ≡ settle f)
      → stage cur reject next ≡ settle f
  unfolding stage
  stage_lem cur f reject next k r n = elim (Bool-cases (ends cur)) [
    | inl e ↦ rw (k e) (rw e (r e))
    | inr e ↦ rw e (n e)
  ]

  queue_lem :
      (i f : DeliveryPolicyInput) (o : Option ℕ)
      → f ≡ add_queue o i
      → i.queue_checked ≡ false
      → ends i ≡ false
      → (elim o [
        | none ↦ deliver_to_inbox w info
        | some n ↦ stage f (dead_letter_and_notify w) (deliver_to_inbox w info)
      ])
        ≡ settle f
  queue_lem i f none p q e = rw p (rw e)
  queue_lem i f (some n) p q e =
      stage_lem f f (dead_letter_and_notify w) (deliver_to_inbox w info) (λ k. refl)
        (λ k. and_notify_lem w _ (rw p (IsQuiet-queue i n q e))) (λ k. rw k)

  settled_queue :
      ends (input_recipient_session w info) ≡ false
      → deliver_queued w info ≡ settle (input_queue w info)
  unfolding deliver_queued input_queue
  settled_queue e =
      queue_lem (input_recipient_session w info) _ _ refl (recipient_session_rest w info) e

  daemon_skips : not_daemon w info ≡ false → input_recipient_session w info ≡ input_sender w info
  unfolding input_recipient_session input_sender_session input_routing
  daemon_skips e = rw e

  -- for another sender than the daemon the three checks are made
  others_check :
      not_daemon w info ≡ true
      → (IsQuiet (input_sender_session w info) (input_recipient_session w info))
        × (IsQuiet (input_routing w info) (input_sender_session w info))
        × (ends (input_sender w info) ≡ false
            → (plan_delivery_policy (input_routing w info)).send_dead_letter_notification ≡ false)
  others_check e = (
    unfold input_recipient_session in
        rw e (
          IsQuiet-recipient_session (input_sender_session w info) _ (sender_session_rest w info).0
            (sender_session_rest w info).1),
    unfold input_sender_session in
        rw e (IsQuiet-sender_session (input_routing w info) _ (routing_rest w info)),
    unfold input_routing in rw e (quiet_routing (input_sender w info) _ (sender_rest w info)),
  )

  settled_routed :
      ends (input_sender w info) ≡ false → deliver_routed w info ≡ settle (input_queue w info)
  unfolding deliver_routed
  settled_routed k = elim (Bool-cases (not_daemon w info)) [
    | inr e ↦ rw e (settled_queue (rw (daemon_skips e) k))
    | inl e ↦ rw e (
        stage_lem (input_routing w info) (input_queue w info) (dead_letter_and_warn w) _
          (IsKept-routing w info) (λ _. and_warn_lem w _ ((others_check e).2 k))
          λ kr.
            stage_lem (input_sender_session w info) (input_queue w info) (dead_letter_and_notify w)
              _ (IsKept-sender_session w info) (λ _. and_notify_lem w _ ((others_check e).1 kr))
              λ ks.
                stage_lem (input_recipient_session w info) (input_queue w info)
                  (dead_letter_and_notify w) _ (IsKept-recipient_session w info)
                  (λ _. and_notify_lem w _ ((others_check e).0 ks)) settled_queue)
  ]

  settled_resolved :
      ends (input_envelope w info) ≡ false → deliver_resolved w info ≡ settle (input_queue w info)
  unfolding deliver_resolved
  settled_resolved k =
      stage_lem (input_recipient w info) (input_queue w info) (dead_letter_and_notify w) _
        (IsKept-recipient w info)
        (λ _. and_notify_lem w _ (
          unfold input_recipient in
          IsQuiet-recipient (input_envelope w info) _ (foreign_unset w info) (envelope_rest w info)
            k))
        λ kr.
          stage_lem (input_foreign w info) (input_queue w info) (dead_letter_and_notify w) _
            (IsKept-foreign w info)
            (λ _. and_notify_lem w _ (
              unfold input_foreign in
              IsQuiet-foreign (input_recipient w info) _
                (unfold input_recipient in (foreign_unset w info)) (recipient_rest w info) kr))
            λ kf.
              stage_lem (input_sender w info) (input_queue w info) (dead_letter_quietly w) _
                (IsKept-sender w info)
                (λ _. quietly_lem w _ (
                  unfold input_sender in
                  quiet_sender (input_foreign w info) _ (foreign_rest w info) kf))
                settled_routed

  parsed_lem :
      (r : ReadResult) (i : DeliveryPolicyInput)
      → i ≡ add_envelope true r (envelope_mismatch_seen w info) (input_info w info)
      → IsKept i (input_queue w info)
      → ends (input_info w info) ≡ false
      → (ends i ≡ false → deliver_resolved w info ≡ settle (input_queue w info))
      → (elim r [
        | gone ↦ already_processed
        | failed ↦ deliver_resolved w info
        | content text ↦ stage i (dead_letter_and_notify w) (deliver_resolved w info)
      ])
        ≡ (if is_gone r then already_processed else settle (input_queue w info))
  parsed_lem (content text) i p k e n =
      stage_lem i (input_queue w info) (dead_letter_and_notify w) _ k
        (λ _. and_notify_lem w _ (
          rw p (IsQuiet-envelope (input_info w info) _ (info_flags w info).1 (info_rest w info) e)))
        n
  parsed_lem gone i p k e n = refl
  parsed_lem failed i p k e n = n (rw p e)

  -- The post file vanished before the frontmatter could be read.
  abbrev pub vanished : Bool
  vanished =
      not (is_forged info.from w.source_session_name w.daemon_session)
      && (not_daemon w info && is_gone w.read_post)

  forged_lem : ends (input_info w info) ≡ is_forged info.from w.source_session_name w.daemon_session
  unfolding input_info empty_input
  forged_lem =
      (ends_forged (input_info w info) (info_flags w info).0 (info_flags w info).1
        (info_rest w info)).0

  -- Unless the post file vanished, the handler of a parsed message does what the one decision on all
  -- its facts says: the dead-letter effects of that decision if it is to dead-letter, and the
  -- delivery to the inbox otherwise.
  pub deliver_parsed-eq-settle :
      deliver_parsed w info ≡ (if vanished then already_processed else settle (input_queue w info))
  unfolding deliver_parsed
  deliver_parsed-eq-settle =
      elim (Bool-cases (is_forged info.from w.source_session_name w.daemon_session)) [
        | inl f ↦
            let e : ends (input_info w info) ≡ true = forged_lem ∙ f in
            rw f (
              rw (IsKept-info w info e) (
                rw e (
                  quietly_lem w _
                    (ends_forged (input_info w info) (info_flags w info).0 (info_flags w info).1
                      (info_rest w info)).1)))
        | inr f ↦ elim (Bool-cases (not_daemon w info)) [
          | inl d ↦
              rw (f, d)
                (parsed_lem w.read_post (input_envelope w info) (unfold input_envelope in rw d refl)
                  (IsKept-envelope w info) (forged_lem ∙ f) settled_resolved)
          | inr d ↦ rw (f, d) (settled_resolved (unfold input_envelope in rw d (forged_lem ∙ f)))
        ]
      ]
