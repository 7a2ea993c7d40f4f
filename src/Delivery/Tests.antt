-- ===== src/Delivery/Tests.antt =====
-- Runs of the delivery on concrete messages.
use tmux_a2a_postman.Base.{
  any, true, some, [], ◌∷◌, ◌≡◌, refl, Text, codes, ◌↔◌, ◌==◌, lookup, if◌then◌else◌, strip_suffix,
  cut,
}
use tmux_a2a_postman.Router.{NodeInfo, resolve_node_name, resolve_runtime_node, resolve}
use tmux_a2a_postman.Address.{cut_colon, split, full}
use tmux_a2a_postman.Address.Codec.{decode_filename_segment}
use tmux_a2a_postman.Filename.{MessageInfo, parse_message_filename, checked_info}
use tmux_a2a_postman.Delivery.Policy.{is_forged, plan_delivery_policy, deliver}
use tmux_a2a_postman.Delivery.World.{World, content, already_processed, stage}
use tmux_a2a_postman.Delivery.Inputs.{
  empty_input, input_queue, input_info, input_envelope, input_recipient, input_foreign,
  input_sender, input_routing, input_sender_session, input_recipient_session, routing_is_allowed,
  allows, envelope_mismatch_seen,
}
use tmux_a2a_postman.Delivery.Pipeline.{
  deliver_message, deliver_parsed, deliver_resolved, deliver_routed, deliver_queued,
  deliver_to_inbox,
}
use tmux_a2a_postman.Delivery.Decisions.{plan-deliver_iff, IsAdmitted}
use tmux_a2a_postman.Delivery.Staging.{deliver_parsed-eq-settle, settle, vanished}
use tmux_a2a_postman.Delivery.Safety.{
  deliver_message_default_deny, deliver_message_moves_once, IsAllowed, moves_to_inbox, IsMovedOnce,
}

abbrev node_at : Text → NodeInfo
node_at session = record { pane_id = codes "%1"; session_name = session; session_dir = codes "/s" }

-- alice and bob are nodes of session main, with an edge from alice to bob.
abbrev mail_world : World
mail_world = record {
  filename = codes "t-r0a1b-from-alice-to-bob.md";
  source_session_name = codes "main";
  source_session_dir = codes "/s";
  daemon_session = codes "main";
  known_nodes =
      (codes "main:alice", node_at (codes "main"))
      ∷ (codes "main:bob", node_at (codes "main"))
      ∷ [];
  adjacency = (codes "alice", codes "bob" ∷ []) ∷ [];
  post_exists = true;
  read_post = content [];
  envelope_from_to = λ _. some (codes "alice", codes "bob");
  is_session_enabled = λ _. true;
  count_inbox = λ _ _. some 3;
  dead_letter_move_succeeds = true;
  inbox_move_succeeds = true;
}

abbrev mail_info : MessageInfo
mail_info = record {
  timestamp = codes "t";
  from = codes "alice";
  to = codes "bob";
  session_hash = [];
  filename = [];
}

mail_parsed : parse_message_filename mail_world.filename ≡ some mail_info
unfolding parse_message_filename strip_suffix ◌==◌ cut decode_filename_segment checked_info
    cut_colon
mail_parsed = refl

mail_arrives : moves_to_inbox (deliver_message mail_world) ≡ true
unfolding any deliver_message parse_message_filename strip_suffix ◌==◌ cut decode_filename_segment
    checked_info cut_colon deliver_parsed is_forged stage deliver_resolved deliver_routed
    deliver_queued deliver_to_inbox plan_delivery_policy input_envelope input_recipient
    input_foreign input_sender input_routing input_sender_session input_recipient_session
    input_queue input_info empty_input routing_is_allowed allows resolve_node_name
    resolve_runtime_node resolve lookup envelope_mismatch_seen split full
mail_arrives = refl

deliver_message_default_deny_example : IsAllowed mail_world mail_info
deliver_message_default_deny_example =
    deliver_message_default_deny mail_world mail_info mail_parsed mail_arrives

deliver_message_moves_once_example : IsMovedOnce mail_world (deliver_message mail_world)
deliver_message_moves_once_example = deliver_message_moves_once mail_world refl refl

deliver_parsed-eq-settle_example : deliver_parsed mail_world mail_info ≡ (
    if vanished mail_world mail_info
    then already_processed
    else settle mail_world mail_info (input_queue mail_world mail_info))
deliver_parsed-eq-settle_example = deliver_parsed-eq-settle mail_world mail_info

plan-deliver_iff_example :
    ((plan_delivery_policy (input_queue mail_world mail_info)).action ≡ deliver)
    ↔ IsAdmitted (input_queue mail_world mail_info)
plan-deliver_iff_example = plan-deliver_iff (input_queue mail_world mail_info)
