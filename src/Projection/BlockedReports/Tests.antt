-- ===== src/Projection/BlockedReports/Tests.antt =====
-- A node that clears its reports while another one stays blocked.
use tmux_a2a_postman.Base.{
  Text, codes, some, [], ◌∷◌, ◌≡◌, refl, lookup, ◌==◌, contains_byte, arith,
}
use tmux_a2a_postman.Envelope.{Metadata, only_body}
use tmux_a2a_postman.Projection.BlockedReports.{Report, inferred, blocked_report_key, on_report}
use tmux_a2a_postman.Projection.BlockedReports.Cleared.{on_report_keeps_others}

abbrev bob_blocked : Report
bob_blocked = record {
  node = codes "bob";
  message_id = codes "m1";
  blocked_report_id = [];
  scope = codes "node";
  scope_id = codes "bob";
  reason = codes "disk";
  evidence_level = inferred;
  observed_at = codes "now";
}

abbrev blocked_key : Text
blocked_key = blocked_report_key (codes "bob") (codes "node") (codes "bob")

abbrev alice_clears : Metadata
alice_clears = record (only_body []) {
  message_id = codes "m2";
  from = codes "alice";
  to = codes "bob";
  message_type = codes "blocked_clear";
  blocked_scope = codes "node";
  blocked_scope_id = codes "bob";
}

on_report_keeps_others_example :
    lookup blocked_key (on_report alice_clears (codes "then") ((blocked_key, bob_blocked) ∷ []))
    ≡ some bob_blocked
unfolding contains_byte lookup blocked_report_key ◌==◌
on_report_keeps_others_example =
    on_report_keeps_others alice_clears (codes "then") bob_blocked ((blocked_key, bob_blocked) ∷ [])
      (λ e. ground (arith, e)) refl refl refl
