-- ===== src/Projection/VerdictDebt/Stamps.antt =====
-- Who settles a debt.
use tmux_a2a_postman.Base.{
  Text, some, ◌≡◌, inl, inr, is_empty, false, lookup, lookup-insert, lookup-delete, arith, beq_iff,
  Option-cases, has_key, true, if◌then◌else◌,
}
use tmux_a2a_postman.Journal.{EventType}
use tmux_a2a_postman.Envelope.{Metadata}
use tmux_a2a_postman.Projection.VerdictDebt.{
  DebtFold, RequiredRequest, is_delivery, note_request, note_fill, note_verdict, note_event,
  debt_of,
}

note_request_debts : (m : Metadata) (s : DebtFold) → (note_request m s).debts ≡ s.debts
unfolding note_request
note_request_debts m s = ground arith

note_fill_keeps :
    (m : Metadata) (at k : Text) (s : DebtFold)
    → has_key k s.debts ≡ true
    → has_key k (note_fill m at s).debts ≡ true
unfolding note_fill
note_fill_keeps m at k s h = elim (Option-cases (lookup m.fills_input_request_id s.requests)) [
  | inl n ↦ ground arith
  | inr (r, q) ↦ ground (
    arith,
    beq_iff r.input_request_id k,
    lookup-insert r.input_request_id k (debt_of m at r) s.debts,
  )
]

-- A message settles the debt of a request: it gives a verdict of it, from the requester to the filler.
abbrev pub Settles : Metadata → Text → RequiredRequest → Type 0
Settles m k r =
    (is_empty m.verdict ≡ false) × (m.verdict_of ≡ k) × (r.requester ≡ m.from) × (r.filler ≡ m.to)

note_verdict-Settles :
    (m : Metadata) (k : Text) (s : DebtFold)
    → has_key k s.debts ≡ true
    → has_key k (note_verdict m s).debts ≡ false
    → (r : RequiredRequest) × (lookup k (note_verdict m s).requests ≡ some r) × Settles m k r
unfolding note_verdict
note_verdict-Settles m k s h g = elim (Option-cases (lookup m.verdict_of s.requests)) [
  | inl n ↦ ground arith
  | inr (r, q) ↦
      let settled : Settles m k r = ground (
        arith,
        beq_iff r.requester m.from,
        beq_iff r.filler m.to,
        beq_iff m.verdict_of k,
        lookup-delete m.verdict_of k s.debts,
      ) in
      (r, ground (arith, settled), settled)
]

-- A debt is settled by an event only if its message gives a verdict of the request, from the requester
-- to the filler that the request names.
pub note_event-Settles :
    (t : EventType) (m : Metadata) (at k : Text) (s : DebtFold)
    → has_key k s.debts ≡ true
    → has_key k (note_event t m at s).debts ≡ false
    → (r : RequiredRequest) × (lookup k (note_event t m at s).requests ≡ some r) × Settles m k r
unfolding note_event
note_event-Settles t m at k s h g =
    let kept : has_key k (if is_delivery t then note_fill m at (note_request m s) else s).debts
        ≡ true =
      ground (arith, note_request_debts m s, note_fill_keeps m at k (note_request m s)) in
    note_verdict-Settles m k _ kept g
