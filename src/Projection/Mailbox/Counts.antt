-- ===== src/Projection/Mailbox/Counts.antt =====
-- What the counts of ProjectMailboxState mean.
use tmux_a2a_postman.Base.{
  Map, Result-cases, Option-cases, ◌⊎◌, ok, subst, inl, inr, ℕ, Bool, true, false, Option, some,
  Text, List, ◌≡◌, refl, arith, ◌==◌, ◌+◌, lookup, insert, delete, has_key, ℤ, pos, increment,
  decrement, NodupKeys, count_values, count_values-insert, count_values-delete, insert-NodupKeys,
  delete-NodupKeys, lookup-insert, lookup-delete, beq_iff,
}
use tmux_a2a_postman.Journal.{Event, CommittedRecord, SessionState}
use tmux_a2a_postman.Projection.{replay, load_current_session_state, Seen, fold_current}
use tmux_a2a_postman.Projection.Mailbox.{
  projected_recipient_name, projected_message_identity, projected_mailbox_state_payload,
  MailboxFold, MailboxPayload, count_or_zero, true_in, deliver_one, read_one, on_delivered, on_read,
  mailbox_step, empty_fold, project_mailbox_state,
}
use tmux_a2a_postman.Projection.Folds.{fold_current_keeps}

-- how many unread messages the state holds for a recipient
abbrev pub unread_of : Text → MailboxFold → ℕ
unread_of r s = count_values (λ x. x == r) s.unread_messages

pub record IsCounted (s : MailboxFold) : Type 0 where
  pub counted : (r : Text) → count_or_zero (lookup r s.inbox_counts) ≡ pos (unread_of r s)
  pub nodup : NodupKeys s.unread_messages
  pub apart : (m : Text) → true_in m s.read_messages ≡ true → has_key m s.unread_messages ≡ false

deliver_one-IsCounted :
    (recipient m : Text) (s : MailboxFold) → IsCounted s → IsCounted (deliver_one recipient m s)
unfolding deliver_one
deliver_one-IsCounted recipient m s h = record {
  counted = λ r. ground (
    arith,
    h.counted r,
    h.counted recipient,
    beq_iff recipient r,
    lookup-insert recipient r (increment (count_or_zero (lookup recipient s.inbox_counts)))
        s.inbox_counts,
    count_values-insert (λ x. x == r) m recipient s.unread_messages,
  );
  nodup = ground (arith, insert-NodupKeys m recipient s.unread_messages, h.nodup);
  apart =
      λ k. ground (arith, h.apart k, beq_iff m k, lookup-insert m k recipient s.unread_messages);
}

decrement_pos : (n k : ℕ) → k + 1 ≡ n → decrement (pos n) ≡ pos k
decrement_pos n k h = ground arith

-- the count of a recipient once an unread message of its own or of another one is dropped
dropped :
    (m recipient : Text) (s : MailboxFold)
    → IsCounted s
    → lookup m s.unread_messages ≡ some recipient
    → (r : Text)
    → count_or_zero (
        lookup r (
          insert recipient
            (decrement (count_or_zero (lookup recipient s.inbox_counts)))
            s.inbox_counts))
      ≡ pos (count_values (λ x. x == r) (delete m s.unread_messages))
dropped m recipient s h e r = ground (
  arith,
  h.counted r,
  h.counted recipient,
  beq_iff recipient r,
  lookup-insert recipient r (decrement (count_or_zero (lookup recipient s.inbox_counts)))
      s.inbox_counts,
  count_values-delete (λ x. x == r) m s.unread_messages h.nodup,
  decrement_pos (unread_of r s) (count_values (λ x. x == r) (delete m s.unread_messages)),
)

read_one-IsCounted :
    (m : Text) (s s' : MailboxFold) → IsCounted s → read_one m s ≡ some s' → IsCounted s'
unfolding read_one
read_one-IsCounted m s s' h e = record {
  counted = λ r. (elim (Option-cases (lookup m s.unread_messages)) [
    | inl n ↦ ground (arith, h.counted r)
    | inr (recipient, q) ↦ ground (arith, h.counted r, dropped m recipient s h q r)
  ]);
  nodup = ground (arith, delete-NodupKeys m s.unread_messages, h.nodup);
  apart = λ k. ground (
    arith,
    h.apart k,
    beq_iff m k,
    lookup-insert m k true s.read_messages,
    lookup-delete m k s.unread_messages,
  );
}

empty_fold-IsCounted : IsCounted empty_fold
unfolding empty_fold lookup count_values
empty_fold-IsCounted = record { counted = λ r. refl; nodup = tt; apart = λ m. ground arith }

see-IsCounted : (s : MailboxFold) (f : Seen) → IsCounted s → IsCounted (record s { seen = f })
see-IsCounted s f h = record { counted = h.counted; nodup = h.nodup; apart = h.apart }

module _ {Raw : Type 0} (raw_is_empty : Raw → Bool) (unmarshal : Raw → Option MailboxPayload) where
  on_delivered-IsCounted :
      (session_name : Text) (s s' : MailboxFold) (raw : Raw)
      → IsCounted s
      → on_delivered raw_is_empty unmarshal session_name s raw ≡ some s'
      → IsCounted s'
  unfolding on_delivered
  on_delivered-IsCounted session_name s s' raw h eq =
      elim (Option-cases (projected_mailbox_state_payload raw_is_empty unmarshal raw)) [
        | inl n ↦ ground arith
        | inr (p, ep) ↦ elim (Option-cases (projected_recipient_name p session_name)) [
          | inl n ↦ ground arith
          | inr (r, er) ↦ elim (Option-cases (projected_message_identity p)) [
            | inl n ↦ ground arith
            | inr (m, em) ↦
                let q : deliver_one r m s ≡ s' = ground arith in
                subst IsCounted q (deliver_one-IsCounted r m s h)
          ]
        ]
      ]

  on_read-IsCounted :
      (s s' : MailboxFold) (raw : Raw)
      → IsCounted s
      → on_read raw_is_empty unmarshal s raw ≡ some s'
      → IsCounted s'
  unfolding on_read
  on_read-IsCounted s s' raw h eq =
      elim (Option-cases (projected_mailbox_state_payload raw_is_empty unmarshal raw)) [
        | inl n ↦ ground arith
        | inr (p, ep) ↦ elim (Option-cases (projected_message_identity p)) [
          | inl n ↦ let q : s ≡ s' = ground arith in subst IsCounted q h
          | inr (m, em) ↦ read_one-IsCounted m s s' h (ground arith)
        ]
      ]

  mailbox_step_kinds :
      (session_name : Text) (s s' : MailboxFold) (e : Event Raw)
      → mailbox_step raw_is_empty unmarshal session_name s e ≡ some s'
      → (on_delivered raw_is_empty unmarshal session_name s e.payload ≡ some s')
        ⊎ ((on_read raw_is_empty unmarshal s e.payload ≡ some s')
            ⊎ (record s { seen = s'.seen } ≡ s'))
  unfolding mailbox_step
  mailbox_step_kinds session_name s s' e eq = ground arith

  mailbox_step-IsCounted :
      (session_name : Text) (s s' : MailboxFold) (e : Event Raw)
      → IsCounted s
      → mailbox_step raw_is_empty unmarshal session_name s e ≡ some s'
      → IsCounted s'
  mailbox_step-IsCounted session_name s s' e h eq =
      elim (mailbox_step_kinds session_name s s' e eq) [
        | inl d ↦ on_delivered-IsCounted session_name s s' e.payload h d
        | inr (inl r) ↦ on_read-IsCounted s s' e.payload h r
        | inr (inr q) ↦ subst IsCounted q (see-IsCounted s s'.seen h)
      ]

  -- What the projection returns are the counts of the loop's last state, in which every message is
  -- unread at most once, no read message is unread, and the count of each recipient is the number of
  -- the unread messages delivered to it. So no count is negative.
  pub project_mailbox_state_counts :
      (file : Option SessionState) (session_name : Text) (records : List (CommittedRecord Raw))
      (counts : Map ℤ)
      → project_mailbox_state raw_is_empty unmarshal file session_name records ≡ some counts
      → (state : SessionState) × (events : List (Event Raw)) × (s : MailboxFold)
        × (load_current_session_state file ≡ some state)
        × (replay records ≡ ok events)
        × (fold_current (mailbox_step raw_is_empty unmarshal session_name) state empty_fold events
            ≡ some s)
        × (counts ≡ s.inbox_counts)
        × IsCounted s
  unfolding project_mailbox_state
  project_mailbox_state_counts file session_name records counts eq =
      elim (Option-cases (load_current_session_state file)) [
        | inl n ↦ ground arith
        | inr (state, es) ↦ elim (Result-cases (replay records)) [
          | inl (x, ex) ↦ ground arith
          | inr (events, ev) ↦
              elim (Option-cases (
                fold_current (mailbox_step raw_is_empty unmarshal session_name) state empty_fold
                  events)) [
                    | inl n ↦ ground arith
                    | inr (s, ef) ↦ (
                      state,
                      events,
                      s,
                      es,
                      ev,
                      ef,
                      ground arith,
                      fold_current_keeps (mailbox_step raw_is_empty unmarshal session_name)
                          IsCounted (mailbox_step-IsCounted session_name) state empty_fold s events
                          empty_fold-IsCounted ef,
                    )
                  ]
        ]
      ]
