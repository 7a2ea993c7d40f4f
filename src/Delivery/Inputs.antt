-- ===== src/Delivery/Inputs.antt =====
-- The facts that DeliverMessage of internal/message/message.go hands to the policy, stage by stage:
-- each stage adds its fields to those of the stage before.
use tmux_a2a_postman.Base.{
  ℕ, Bool, true, false, not, ◌&&◌, ◌||◌, Option, none, some, [], Text, codes, ◌==◌, lookup, any,
}
use tmux_a2a_postman.Address.{simple}
use tmux_a2a_postman.Router.{
  NodeInfo, Resolution, resolve_runtime_node, resolve_node_name, failure_none,
}
use tmux_a2a_postman.Filename.{MessageInfo}
use tmux_a2a_postman.Delivery.Policy.{DeliveryPolicyInput}
use tmux_a2a_postman.Delivery.World.{ReadResult, World, content, gone, failed, inbox_queue_cap}

abbrev zero_resolution : Resolution
zero_resolution = record {
  address = [];
  session_name = [];
  node_name = [];
  explicit_session = false;
  found = false;
  failure_reason = failure_none;
}

abbrev zero_info : MessageInfo
zero_info = record { timestamp = []; from = []; to = []; session_hash = []; filename = [] }

-- deliveryPolicyInput{…} with only the named fields given
unfoldable pub empty_input : World → DeliveryPolicyInput
empty_input w = record {
  filename = w.filename;
  info = zero_info;
  parse_error_seen = false;
  source_session_name = w.source_session_name;
  daemon_session = w.daemon_session;
  envelope_checked = false;
  envelope_mismatched = false;
  recipient_resolved = false;
  recipient_resolution = zero_resolution;
  recipient_foreign = false;
  sender_resolved = false;
  sender_resolution = zero_resolution;
  routing_checked = false;
  routing_allowed = false;
  sender_session_checked = false;
  sender_session_enabled = false;
  recipient_session_checked = false;
  recipient_session_enabled = false;
  queue_checked = false;
  queue_count = 0;
  queue_cap = inbox_queue_cap;
}

-- the zero value of a map lookup
abbrev node_or_zero : Option NodeInfo → NodeInfo
node_or_zero none = record { pane_id = []; session_name = []; session_dir = [] }
node_or_zero (some n) = n

unfoldable pub envelope_mismatch_seen : World → MessageInfo → Text → Bool
envelope_mismatch_seen w info text = elim (w.envelope_from_to text) [
  | none ↦ true
  | some (from, to) ↦ not (from == info.from) || not (to == info.to)
]

-- The loop over the sender's two keys and their neighbours.
unfoldable pub allows : World → Text → Text → Bool
allows w recipient_full_name sender_key = elim (lookup sender_key w.adjacency) [
  | none ↦ false
  | some neighbors ↦
      any
        (λ (n : Text).
          resolve_node_name n w.source_session_name w.known_nodes == recipient_full_name)
        neighbors
]

unfoldable pub routing_is_allowed : World → MessageInfo → Text → Text → Bool
routing_is_allowed w info sender_full_name recipient_full_name =
    allows w recipient_full_name info.from || allows w recipient_full_name sender_full_name

-- The fields that the stages with a condition add.
abbrev pub add_envelope :
    Bool → ReadResult → (Text → Bool) → DeliveryPolicyInput → DeliveryPolicyInput
add_envelope false r mismatch i = i
add_envelope true (content text) mismatch i = record i {
  envelope_checked = true;
  envelope_mismatched = mismatch text;
}
add_envelope true gone mismatch i = i
add_envelope true failed mismatch i = i

abbrev pub add_routing : Bool → Bool → DeliveryPolicyInput → DeliveryPolicyInput
add_routing false allowed i = i
add_routing true allowed i = record i { routing_checked = true; routing_allowed = allowed }

abbrev pub add_sender_session : Bool → Bool → DeliveryPolicyInput → DeliveryPolicyInput
add_sender_session false enabled i = i
add_sender_session true enabled i = record i {
  sender_session_checked = true;
  sender_session_enabled = enabled;
}

abbrev pub add_recipient_session : Bool → Bool → DeliveryPolicyInput → DeliveryPolicyInput
add_recipient_session false enabled i = i
add_recipient_session true enabled i = record i {
  recipient_session_checked = true;
  recipient_session_enabled = enabled;
}

abbrev pub add_queue : Option ℕ → DeliveryPolicyInput → DeliveryPolicyInput
add_queue none i = i
add_queue (some n) i = record i { queue_checked = true; queue_count = n }

module _ (w : World) (info : MessageInfo) where
  abbrev pub not_daemon : Bool
  not_daemon = not (info.from == codes "daemon")

  abbrev pub recipient_resolution_of : Resolution
  recipient_resolution_of = resolve_runtime_node info.to w.source_session_name w.known_nodes

  abbrev pub sender_resolution_of : Resolution
  sender_resolution_of = resolve_runtime_node info.from w.source_session_name w.known_nodes

  abbrev pub recipient_node : NodeInfo
  recipient_node = node_or_zero (lookup recipient_resolution_of.address w.known_nodes)

  unfoldable pub input_info : DeliveryPolicyInput
  input_info = record (empty_input w) { info = info }

  -- the frontmatter is checked unless the sender is the daemon or the file cannot be read
  unfoldable pub input_envelope : DeliveryPolicyInput
  input_envelope = add_envelope not_daemon w.read_post (envelope_mismatch_seen w info) input_info

  unfoldable pub input_recipient : DeliveryPolicyInput
  input_recipient = record input_envelope {
    recipient_resolved = true;
    recipient_resolution = recipient_resolution_of;
  }

  unfoldable pub input_foreign : DeliveryPolicyInput
  input_foreign = record input_recipient {
    recipient_foreign =
        not (w.daemon_session == [])
        && (not (recipient_node.session_name == w.daemon_session)
            && not (w.is_session_enabled recipient_node.session_name));
  }

  unfoldable pub input_sender : DeliveryPolicyInput
  input_sender = record input_foreign {
    sender_resolved = true;
    sender_resolution = sender_resolution_of;
  }

  unfoldable pub input_routing : DeliveryPolicyInput
  input_routing =
      add_routing not_daemon
        (routing_is_allowed w info sender_resolution_of.address recipient_resolution_of.address)
        input_sender

  unfoldable pub input_sender_session : DeliveryPolicyInput
  input_sender_session =
      add_sender_session not_daemon (w.is_session_enabled w.source_session_name) input_routing

  unfoldable pub input_recipient_session : DeliveryPolicyInput
  input_recipient_session =
      add_recipient_session not_daemon (w.is_session_enabled recipient_node.session_name)
        input_sender_session

  unfoldable pub input_queue : DeliveryPolicyInput
  input_queue = add_queue (w.count_inbox recipient_node (simple info.to)) input_recipient_session
