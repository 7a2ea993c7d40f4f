-- ===== src/Projection/InputRequests/Answers.antt =====
-- Whose answer closes a request.
use tmux_a2a_postman.Base.{
  Bool, not, ◌&&◌, ◌||◌, ◌==◌, if◌then◌else◌, Bool-cases, subst, sym, ◌≡◌, inl, inr, arith, beq_iff,
  Option-cases, Text, Option, none, some, is_empty, lookup, lookup-delete, ℕ,
}
use tmux_a2a_postman.Envelope.{Metadata}
use tmux_a2a_postman.Projection.InputRequests.{RequestFold, Detail, Open}
use tmux_a2a_postman.Projection.InputRequests.Answering.{
  find_exact, close_exact, close_fallback, close_answered, resolve_inbound,
}
use tmux_a2a_postman.Projection.InputRequests.Loop.{
  on_post_consumed, open_outbound_request, with_ledger, ledger,
}
use tmux_a2a_postman.Projection.InputRequests.Satisfied.{fill_request_satisfaction}

-- A message answers a request that has an id: it names the id, comes from the recipient, and replies
-- to the request's message if it says what it replies to.
abbrev pub answers : Metadata → Text → Detail → Bool
answers m k e =
    not (is_empty m.fills_input_request_id)
    && (m.fills_input_request_id == k
        && (e.recipient == m.from && (is_empty m.reply_to || m.reply_to == e.message_id)))

-- what stays open of a request with an id behind a message
abbrev pub left_open : Metadata → Text → Detail → Option Detail
left_open m k e = if answers m k e then none else some e

close_answered-answers :
    (m : Metadata) (o o' : Open) (d e : Detail) (k : Text)
    → close_answered m o ≡ some (d, o')
    → lookup k o.exact ≡ some e
    → lookup k o'.exact ≡ left_open m k e
unfolding close_answered close_exact close_fallback find_exact
close_answered-answers m o o' d e k eq l = elim (Bool-cases (m.fills_input_request_id == k)) [
  | inl q ↦
      let same = (beq_iff m.fills_input_request_id k).0 q in
      let there : lookup m.fills_input_request_id o.exact ≡ some e =
        subst (λ i. lookup i o.exact ≡ some e) (sym same) l in
      ground (arith, there, lookup-delete m.fills_input_request_id k o.exact)
  | inr q ↦ ground (arith, lookup-delete m.fills_input_request_id k o.exact)
]

close_answered-none :
    (m : Metadata) (o : Open) (e : Detail) (k : Text)
    → close_answered m o ≡ none
    → lookup k o.exact ≡ some e
    → some e ≡ left_open m k e
unfolding close_answered close_exact find_exact
close_answered-none m o e k eq l = elim (Bool-cases (m.fills_input_request_id == k)) [
  | inl q ↦
      let same = (beq_iff m.fills_input_request_id k).0 q in
      let there : lookup m.fills_input_request_id o.exact ≡ some e =
        subst (λ i. lookup i o.exact ≡ some e) (sym same) l in
      ground (arith, there)
  | inr q ↦ ground arith
]

resolve_inbound-answers :
    (m : Metadata) (s : RequestFold) (k : Text) (e : Detail)
    → lookup k s.open_inbound.exact ≡ some e
    → lookup k (resolve_inbound m s).open_inbound.exact ≡ left_open m k e
unfolding resolve_inbound
resolve_inbound-answers m s k e l = elim (Option-cases (close_answered m s.open_inbound)) [
  | inl n ↦ ground (arith, l, close_answered-none m s.open_inbound e k n l)
  | inr ((d, o), c) ↦ ground (arith, close_answered-answers m s.open_inbound o d e k c l)
]

-- When a post is consumed, an open request with an id is closed exactly if the post answers it: the
-- post names the id as what it fills, comes from the request's recipient, and replies to the request's
-- message or says not what it replies to. Otherwise the request stays open as it is.
pub on_post_consumed-Answers :
    (parse_time : Text → Option ℕ) (whole_seconds : ℕ → ℕ → ℕ) (m : Metadata)
    (at source event_id : Text) (s : RequestFold) (k : Text) (e : Detail)
    → lookup k s.open_inbound.exact ≡ some e
    → lookup k (on_post_consumed parse_time whole_seconds m at source event_id s).open_inbound.exact
      ≡ left_open m k e
unfolding on_post_consumed open_outbound_request
on_post_consumed-Answers parse_time whole_seconds m at source event_id s k e l =
    let t = with_ledger s (fill_request_satisfaction parse_time whole_seconds m at (ledger s)) in
    ground (arith, resolve_inbound-answers m t k e l)
