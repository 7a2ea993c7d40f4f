-- ===== src/Projection/Mailbox.antt =====
-- ProjectMailboxState of internal/projection/mailbox_state.go: how many unread messages each inbox of
-- a session has. Decoding a payload is the parameter `unmarshal`, json.Unmarshal.
pub mod Counts
use tmux_a2a_postman.Base.{
  ◌>>=◌, Bool, true, false, not, ◌&&◌, ◌||◌, Option, none, some, Text, codes, List, [], ◌∷◌, ◌==◌,
  is_empty, if◌then◌else◌, Map, lookup, insert, delete, has_key, ℤ, pos, increment, decrement,
  path_base, ok, err,
}
use tmux_a2a_postman.Address.{full, split}
use tmux_a2a_postman.Journal.{Event, CommittedRecord, SessionState, mailbox_delivered, mailbox_read}
use tmux_a2a_postman.Journal.Replay.{replay}
use tmux_a2a_postman.Projection.{
  Seen, unseen, see, saw_all, fold_current, load_current_session_state,
}
use tmux_a2a_postman.Projection.Paths.{path_key, is_allowed_projection_path}

-- mailboxStatePayload
pub record MailboxPayload : Type 0 where
  pub message_id : Text
  pub to : Text
  pub path : Text

abbrev empty_payload : MailboxPayload
empty_payload = record { message_id = []; to = []; path = [] }

-- The variables of the loop; a set is a map to Bool.
pub record MailboxFold : Type 0 where
  pub inbox_counts : Map ℤ
  pub unread_messages : Map Text
  pub delivered_messages : Map Bool
  pub read_messages : Map Bool
  pub saw_delivery : Bool
  pub seen : Seen

unfoldable pub empty_fold : MailboxFold
empty_fold = record {
  inbox_counts = [];
  unread_messages = [];
  delivered_messages = [];
  read_messages = [];
  saw_delivery = false;
  seen = unseen;
}

unfoldable pub projected_recipient_name : MailboxPayload → Text → Option Text
projected_recipient_name p session_name =
    if is_empty p.to
    then none
    else let parts = split (full p.to session_name) in
      if not parts.has_session
        || (not (parts.session_name == session_name) || is_empty parts.node_name)
      then none
      else some parts.node_name

unfoldable pub projected_message_identity : MailboxPayload → Option Text
projected_message_identity p =
    if not (is_empty p.message_id)
    then some p.message_id
    else if not (is_allowed_projection_path p.path)
    then none
    else let base = path_base (path_key p.path) in
      if base == codes "." || (base == codes "/" || is_empty base) then none else some base

-- A missing key of a Go map reads as zero.
abbrev pub count_or_zero : Option ℤ → ℤ
count_or_zero none = pos 0
count_or_zero (some n) = n

abbrev pub true_in : Text → Map Bool → Bool
true_in k m = elim (lookup k m) [ none ↦ false | some b ↦ b ]

-- a delivery, with what its payload says
unfoldable pub deliver_one : Text → Text → MailboxFold → MailboxFold
deliver_one recipient message_id s =
    let s' = record s {
      saw_delivery = true;
      delivered_messages = insert message_id true s.delivered_messages;
    } in
    if true_in message_id s.read_messages
    then s'
    else if has_key message_id s.unread_messages
    then s'
    else record s' {
      unread_messages = insert message_id recipient s.unread_messages;
      inbox_counts =
          insert recipient (increment (count_or_zero (lookup recipient s.inbox_counts)))
            s.inbox_counts;
    }

-- a read, with the message that its payload names
unfoldable pub read_one : Text → MailboxFold → Option MailboxFold
read_one message_id s = elim (lookup message_id s.unread_messages) [
  | none ↦
      if not s.saw_delivery
      then none
      else if true_in message_id s.delivered_messages
      then some (record s { read_messages = insert message_id true s.read_messages })
      else some s
  | some recipient ↦ some (record s {
    inbox_counts =
        insert recipient (decrement (count_or_zero (lookup recipient s.inbox_counts)))
          s.inbox_counts;
    unread_messages = delete message_id s.unread_messages;
    read_messages = insert message_id true s.read_messages;
  })
]

module _ {Raw : Type 0} (raw_is_empty : Raw → Bool) (unmarshal : Raw → Option MailboxPayload) where
  unfoldable pub projected_mailbox_state_payload : Raw → Option MailboxPayload
  projected_mailbox_state_payload raw =
      if raw_is_empty raw then some empty_payload else unmarshal raw

  unfoldable pub on_delivered : Text → MailboxFold → Raw → Option MailboxFold
  on_delivered session_name s raw = do
    p ← projected_mailbox_state_payload raw
    recipient ← projected_recipient_name p session_name
    message_id ← projected_message_identity p
    some (deliver_one recipient message_id s)

  unfoldable pub on_read : MailboxFold → Raw → Option MailboxFold
  on_read s raw = projected_mailbox_state_payload raw >>= λ p. elim (projected_message_identity p) [
    | none ↦ if s.saw_delivery then some s else none
    | some message_id ↦ read_one message_id s
  ]

  -- the callback, on an event of the current session
  unfoldable pub mailbox_step : Text → MailboxFold → Event Raw → Option MailboxFold
  mailbox_step session_name s e = elim e.type [
    | mailbox_delivered ↦ on_delivered session_name s e.payload
    | mailbox_read ↦ on_read s e.payload
    | t ↦ some (record s { seen = see t s.seen })
  ]

  unfoldable pub project_mailbox_state :
      Option SessionState → Text → List (CommittedRecord Raw) → Option (Map ℤ)
  project_mailbox_state session_file session_name records =
      load_current_session_state session_file >>= λ state.
      (elim (replay records) [
        | err x ↦ none
        | ok events ↦ fold_current (mailbox_step session_name) state empty_fold events
      ])
      >>= λ s. if saw_all s.seen then some s.inbox_counts else none
