-- ===== src/Projection/VerdictDebt/Tests.antt =====
-- A debt that is counted, and a verdict that settles it.
use tmux_a2a_postman.Base.{
  ℕ, ◌-◌, ◌≤◌, ◌≡◌, refl, codes, Text, Option, some, [], ◌∷◌, lookup, delete, false, ◌==◌, length,
  count_if, count_values, Map,
}
use tmux_a2a_postman.Journal.{mailbox_post_consumed}
use tmux_a2a_postman.Envelope.{Metadata, only_body}
use tmux_a2a_postman.Projection.VerdictDebt.{
  DebtItem, DebtFold, RequiredRequest, no_debts, debt_at, projected_debts, note_event, note_verdict,
}
use tmux_a2a_postman.Projection.VerdictDebt.Counts.{projected_debts_counts}
use tmux_a2a_postman.Projection.VerdictDebt.Stamps.{Settles, note_event-Settles}

abbrev clock : Text → Option ℕ
clock t = some 5

abbrev seconds : ℕ → ℕ → ℕ
seconds a b = b - a

abbrev alice_owes : DebtItem
alice_owes = record {
  input_request_id = codes "i";
  requester = codes "alice";
  filler = codes "bob";
  request_message = codes "m1";
  fill_message = codes "m2";
  filled_at = codes "now";
  age_seconds = 0;
  expired = false;
}

abbrev one_debt : Map DebtItem
one_debt = (codes "i", alice_owes) ∷ []

projected_debts_counts_example :
    let d = debt_at (codes "alice") (projected_debts clock seconds 9 1 one_debt) in
    (d.unstamped_count ≡ length d.items)
    × (d.expired_count ≡ count_if (λ j. j.expired) d.items)
    × (d.unstamped_count ≡ count_values (λ i. i.requester == codes "alice") one_debt)
    × (d.expired_count ≤ d.unstamped_count)
projected_debts_counts_example = projected_debts_counts clock seconds 9 1 one_debt (codes "alice")

abbrev alice_asked : RequiredRequest
alice_asked = record {
  input_request_id = codes "i";
  requester = codes "alice";
  filler = codes "bob";
  message_id = codes "m1";
}

abbrev alice_stamps : Metadata
alice_stamps = record (only_body []) {
  message_id = codes "m3";
  from = codes "alice";
  to = codes "bob";
  verdict = codes "ok";
  verdict_of = codes "i";
}

abbrev owing : DebtFold
owing = record no_debts { requests = (codes "i", alice_asked) ∷ []; debts = one_debt }

note_event-Settles_example :
    (r : RequiredRequest) × (lookup
        (codes "i")
        (note_event mailbox_post_consumed alice_stamps (codes "then") owing).requests
      ≡ some r)
    × Settles alice_stamps (codes "i") r
unfolding note_event note_verdict lookup delete ◌==◌ no_debts
note_event-Settles_example =
    note_event-Settles mailbox_post_consumed alice_stamps (codes "then") (codes "i") owing refl refl
