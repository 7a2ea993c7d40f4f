-- ===== src/Projection/InputRequests/Counts.antt =====
-- Every turn of the loop keeps the requests that are open covered.
use tmux_a2a_postman.Base.{
  Bool, true, false, Option, Text, refl, if◌then◌else◌, Map, lookup, ℕ, arith, count_values,
}
use tmux_a2a_postman.Journal.{
  EventType, mailbox_post_consumed, mailbox_delivered, mailbox_read, mailbox_dead_lettered,
}
use tmux_a2a_postman.Envelope.{Metadata}
use tmux_a2a_postman.Envelope.Policy.{resolve_reply_policy, is_required}
use tmux_a2a_postman.Projection.{Seen}
use tmux_a2a_postman.Projection.InputRequests.{RequestFold, MailboxEventPayload, no_requests}
use tmux_a2a_postman.Projection.InputRequests.Satisfied.{Ledger, fill_request_satisfaction}
use tmux_a2a_postman.Projection.InputRequests.Loop.{
  ledger, with_ledger, on_request_read, on_request_dead_lettered, on_post_consumed,
  on_request_delivered, on_mailbox_event, on_payload,
}
use tmux_a2a_postman.Projection.InputRequests.Ledgers.{
  IsBalanced, dead_letter_request_satisfaction-IsBalanced, fill_request_satisfaction-IsBalanced,
}
use tmux_a2a_postman.Projection.InputRequests.Covered.{
  IsCovered, Covered-mark, resolve_inbound-IsCovered, resolve_outbound-IsCovered,
  open_outbound_request-IsCovered, open_inbound_request-IsCovered, note_info_unread-IsCovered,
  read_info-IsCovered,
}

with_ledger-IsCovered :
    (s : RequestFold) (l : Ledger) → IsCovered s → IsBalanced l → IsCovered (with_ledger s l)
with_ledger-IsCovered s l h b = record {
  in_counts = h.in_counts;
  out_counts = h.out_counts;
  info_nodup = h.info_nodup;
  info_counts = h.info_counts;
  in_ledger = b;
}

-- what the invariant does not look at
pub rest-IsCovered :
    (s : RequestFold) (unread : Map ℕ) (seen : Seen) (complete : Bool)
    → IsCovered s
    → IsCovered
        (record s { unread_counts = unread; seen = seen; saw_complete_mailbox_event = complete })
rest-IsCovered s unread seen complete h = record {
  in_counts = h.in_counts;
  out_counts = h.out_counts;
  info_nodup = h.info_nodup;
  info_counts = h.info_counts;
  in_ledger = h.in_ledger;
}

on_request_read-IsCovered :
    (m : Metadata) (at event_id : Text) (s : RequestFold)
    → IsCovered s
    → IsCovered (on_request_read m at event_id s)
unfolding on_request_read
on_request_read-IsCovered m at event_id s h = read_info-IsCovered m _ (record {
  in_counts =
      Covered-mark (λ e. e.recipient) m at event_id s.open_inbound s.input_required_counts
        (λ d. refl) h.in_counts;
  out_counts =
      Covered-mark (λ e. e.sender) m at event_id s.open_outbound s.waiting_on_input_counts
        (λ d. refl) h.out_counts;
  info_nodup = h.info_nodup;
  info_counts = h.info_counts;
  in_ledger = h.in_ledger;
})

on_request_dead_lettered-IsCovered :
    (m : Metadata) (at source event_id : Text) (s : RequestFold)
    → IsCovered s
    → IsCovered (on_request_dead_lettered m at source event_id s)
unfolding on_request_dead_lettered
on_request_dead_lettered-IsCovered m at source event_id s h =
    with_ledger-IsCovered s _ h
      (dead_letter_request_satisfaction-IsBalanced m at source event_id (ledger s) h.in_ledger)

pub no_requests-IsCovered : IsCovered no_requests
unfolding no_requests lookup count_values
no_requests-IsCovered = record {
  in_counts = ((tt, tt), λ r. ground arith);
  out_counts = ((tt, tt), λ r. ground arith);
  info_nodup = tt;
  info_counts = λ r. ground arith;
  in_ledger = record {
    balanced = λ r. ground arith;
    unfinished = λ r. ground arith;
    nodup = (tt, tt);
  };
}

-- one of two states
either-IsCovered :
    (b : Bool) (s t : RequestFold) → IsCovered s → IsCovered t → IsCovered (if b then s else t)
either-IsCovered true s t hs ht = hs
either-IsCovered false s t hs ht = ht

module _ (parse_time : Text → Option ℕ) (whole_seconds : ℕ → ℕ → ℕ) where
  fill-IsCovered :
      (m : Metadata) (at : Text) (s : RequestFold)
      → IsCovered s
      → IsCovered
          (with_ledger s (fill_request_satisfaction parse_time whole_seconds m at (ledger s)))
  fill-IsCovered m at s h =
      with_ledger-IsCovered s _ h
        (fill_request_satisfaction-IsBalanced parse_time whole_seconds m at (ledger s) h.in_ledger)

  on_post_consumed-IsCovered :
      (m : Metadata) (at source event_id : Text) (s : RequestFold)
      → IsCovered s
      → IsCovered (on_post_consumed parse_time whole_seconds m at source event_id s)
  unfolding on_post_consumed
  on_post_consumed-IsCovered m at source event_id s h =
      let r = resolve_inbound-IsCovered m _ (fill-IsCovered m at s h) in
      either-IsCovered (is_required (resolve_reply_policy m)) _ _
        (open_outbound_request-IsCovered m at source event_id _ r) r

  on_request_delivered-IsCovered :
      (m : Metadata) (at source event_id : Text) (s : RequestFold)
      → IsCovered s
      → IsCovered (on_request_delivered parse_time whole_seconds m at source event_id s)
  unfolding on_request_delivered
  on_request_delivered-IsCovered m at source event_id s h =
      let f = fill-IsCovered m at _ (resolve_outbound-IsCovered m s h) in
      let r = rest-IsCovered _ _ _ _ f in
      either-IsCovered (is_required (resolve_reply_policy m)) _ _
        (open_inbound_request-IsCovered m at source event_id _ r) (note_info_unread-IsCovered m _ r)

  on_mailbox_event-IsCovered :
      (t : EventType) (m : Metadata) (at event_id : Text) (s : RequestFold)
      → IsCovered s
      → IsCovered (on_mailbox_event parse_time whole_seconds t m at event_id s)
  unfolding on_mailbox_event
  on_mailbox_event-IsCovered mailbox_post_consumed m at event_id s h =
      on_post_consumed-IsCovered m at _ event_id s h
  on_mailbox_event-IsCovered mailbox_delivered m at event_id s h =
      on_request_delivered-IsCovered m at _ event_id s h
  on_mailbox_event-IsCovered mailbox_read m at event_id s h =
      on_request_read-IsCovered m at event_id s h
  on_mailbox_event-IsCovered mailbox_dead_lettered m at event_id s h =
      on_request_dead_lettered-IsCovered m at _ event_id s h
  on_mailbox_event-IsCovered _ m at event_id s h = h

  pub on_payload-IsCovered :
      (session_name : Text) (t : EventType) (p : MailboxEventPayload) (at event_id : Text)
      (s : RequestFold)
      → IsCovered s
      → IsCovered (on_payload parse_time whole_seconds session_name t p at event_id s)
  unfolding on_payload
  on_payload-IsCovered session_name t p at event_id s h = either-IsCovered _ s _ h (
      either-IsCovered _ s _ h
        (on_mailbox_event-IsCovered t _ at event_id _ (rest-IsCovered s _ _ _ h)))
