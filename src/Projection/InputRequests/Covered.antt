-- ===== src/Projection/InputRequests/Covered.antt =====
-- The counts of the loop cover the requests that are open, whatever opens, closes or marks them.
use tmux_a2a_postman.Base.{
  some, Text, [], ◌≡◌, refl, inl, inr, ◌==◌, Map, lookup, delete, ℕ, ◌≤◌, arith, count_values,
  count_values-insert, count_values-delete, insert-NodupKeys, delete-NodupKeys, NodupKeys,
  Option-cases, sym, subst,
}
use tmux_a2a_postman.Envelope.{Metadata}
use tmux_a2a_postman.Projection.InputRequests.{
  RequestFold, Detail, Open, inbound, outbound, number_at, increment_count, decrement_count,
  input_request_key, opened_detail,
}
use tmux_a2a_postman.Projection.InputRequests.Answering.{
  marked, open_request, close_answered, resolve_inbound, resolve_outbound, mark_input_request_read,
}
use tmux_a2a_postman.Projection.InputRequests.Loop.{
  ledger, open_outbound_request, open_inbound_request, info_detail, note_info_unread, read_info,
}
use tmux_a2a_postman.Projection.InputRequests.Held.{
  number_at-increment, number_at-decrement, held, NodupOpen, open_request-held,
  open_request-NodupOpen, close_answered-held, mark_input_request_read-held,
}
use tmux_a2a_postman.Projection.InputRequests.Ledgers.{
  goes_to, IsBalanced, open_request_satisfaction-IsBalanced,
}

-- The open requests of each node, which a function names, are counted at least once each.
abbrev pub Covered : (Detail → Text) → Open → Map ℕ → Type 0
Covered who o c = NodupOpen o × ((r : Text) → held (λ d. who d == r) o ≤ number_at r c)

module _ (who : Detail → Text) where
  pub Covered-open :
      (m : Metadata) (d : Detail) (o : Open) (c : Map ℕ)
      → Covered who o c
      → Covered who (open_request m d o) (increment_count (who d) c)
  Covered-open m d o c h = (
    open_request-NodupOpen m d o h.0,
    λ r.
        ground (
          arith,
          h.1 r,
          open_request-held (λ e. who e == r) m d o,
          number_at-increment (who d) r c,
        ),
  )

  pub Covered-close :
      (m : Metadata) (d : Detail) (o o' : Open) (c : Map ℕ)
      → Covered who o c
      → close_answered m o ≡ some (d, o')
      → Covered who o' (decrement_count (who d) c)
  Covered-close m d o o' c h q = (
    (close_answered-held (λ e. who e == []) m d o o' h.0 q).1,
    λ r. ground (
      arith,
      h.1 r,
      (close_answered-held (λ e. who e == r) m d o o' h.0 q).0,
      number_at-decrement (who d) r c,
    ),
  )

  pub Covered-mark :
      (m : Metadata) (at event_id : Text) (o : Open) (c : Map ℕ)
      → ((d : Detail) → who (marked at event_id d) ≡ who d)
      → Covered who o c
      → Covered who (mark_input_request_read m at event_id o) c
  Covered-mark m at event_id o c u h = (
    (mark_input_request_read-held (λ e. who e == []) m at event_id o (λ d. rw (u d) refl) h.0).1,
    λ r. ground (
      arith,
      h.1 r,
      (mark_input_request_read-held (λ e. who e == r) m at event_id o (λ d. rw (u d) refl) h.0).0,
    ),
  )

-- What the loop's variables keep.
pub record IsCovered (s : RequestFold) : Type 0 where
  pub in_counts : Covered (λ d. d.recipient) s.open_inbound s.input_required_counts
  pub out_counts : Covered (λ d. d.sender) s.open_outbound s.waiting_on_input_counts
  pub info_nodup : NodupKeys s.info_unread
  pub info_counts :
      (r : Text) → count_values (goes_to r) s.info_unread ≤ number_at r s.info_unread_counts
  pub in_ledger : IsBalanced (ledger s)

pub resolve_inbound-IsCovered :
    (m : Metadata) (s : RequestFold) → IsCovered s → IsCovered (resolve_inbound m s)
resolve_inbound-IsCovered m s h = elim (Option-cases (close_answered m s.open_inbound)) [
  | inl n ↦
      let q : resolve_inbound m s ≡ s = unfold resolve_inbound in ground arith in
      subst IsCovered (sym q) h
  | inr ((d, o), c) ↦
      let t : RequestFold = record s {
        open_inbound = o;
        input_required_counts = decrement_count d.recipient s.input_required_counts;
      } in
      let q : resolve_inbound m s ≡ t = unfold resolve_inbound in ground arith in
      subst IsCovered (sym q) (record {
        in_counts =
            Covered-close (λ e. e.recipient) m d s.open_inbound o s.input_required_counts
              h.in_counts c;
        out_counts = h.out_counts;
        info_nodup = h.info_nodup;
        info_counts = h.info_counts;
        in_ledger = h.in_ledger;
      })
]

pub resolve_outbound-IsCovered :
    (m : Metadata) (s : RequestFold) → IsCovered s → IsCovered (resolve_outbound m s)
resolve_outbound-IsCovered m s h = elim (Option-cases (close_answered m s.open_outbound)) [
  | inl n ↦
      let q : resolve_outbound m s ≡ s = unfold resolve_outbound in ground arith in
      subst IsCovered (sym q) h
  | inr ((d, o), c) ↦
      let t : RequestFold = record s {
        open_outbound = o;
        waiting_on_input_counts = decrement_count d.sender s.waiting_on_input_counts;
      } in
      let q : resolve_outbound m s ≡ t = unfold resolve_outbound in ground arith in
      subst IsCovered (sym q) (record {
        in_counts = h.in_counts;
        out_counts =
            Covered-close (λ e. e.sender) m d s.open_outbound o s.waiting_on_input_counts
              h.out_counts c;
        info_nodup = h.info_nodup;
        info_counts = h.info_counts;
        in_ledger = h.in_ledger;
      })
]

pub open_outbound_request-IsCovered :
    (m : Metadata) (at source event_id : Text) (s : RequestFold)
    → IsCovered s
    → IsCovered (open_outbound_request m at source event_id s)
unfolding open_outbound_request opened_detail
open_outbound_request-IsCovered m at source event_id s h =
    let d = opened_detail m outbound at source event_id in
    record {
      in_counts = h.in_counts;
      out_counts =
          Covered-open (λ e. e.sender) m d s.open_outbound s.waiting_on_input_counts h.out_counts;
      info_nodup = h.info_nodup;
      info_counts = h.info_counts;
      in_ledger = h.in_ledger;
    }

pub open_inbound_request-IsCovered :
    (m : Metadata) (at source event_id : Text) (s : RequestFold)
    → IsCovered s
    → IsCovered (open_inbound_request m at source event_id s)
unfolding open_inbound_request opened_detail
open_inbound_request-IsCovered m at source event_id s h =
    let d = opened_detail m inbound at source event_id in
    record {
      in_counts =
          Covered-open (λ e. e.recipient) m d s.open_inbound s.input_required_counts h.in_counts;
      out_counts = h.out_counts;
      info_nodup = h.info_nodup;
      info_counts = h.info_counts;
      in_ledger = open_request_satisfaction-IsBalanced m at source event_id (ledger s) h.in_ledger;
    }

pub note_info_unread-IsCovered :
    (m : Metadata) (s : RequestFold) → IsCovered s → IsCovered (note_info_unread m s)
unfolding note_info_unread info_detail opened_detail
note_info_unread-IsCovered m s h =
    let key = input_request_key m.message_id m.to in
    record {
      in_counts = h.in_counts;
      out_counts = h.out_counts;
      info_nodup = insert-NodupKeys key (info_detail m) s.info_unread h.info_nodup;
      info_counts = λ r. ground (
        arith,
        h.info_counts r,
        count_values-insert (goes_to r) key (info_detail m) s.info_unread,
        number_at-increment m.to r s.info_unread_counts,
      );
      in_ledger = h.in_ledger;
    }

pub read_info-IsCovered : (m : Metadata) (s : RequestFold) → IsCovered s → IsCovered (read_info m s)
read_info-IsCovered m s h =
    let key = input_request_key m.message_id m.to in
    elim (Option-cases (lookup key s.info_unread)) [
      | inl n ↦
          let q : read_info m s ≡ s = unfold read_info in ground arith in subst IsCovered (sym q) h
      | inr (d, c) ↦
          let t : RequestFold = record s {
            info_unread_counts = decrement_count d.recipient s.info_unread_counts;
            info_unread = delete key s.info_unread;
          } in
          let q : read_info m s ≡ t = unfold read_info in ground arith in
          subst IsCovered (sym q) (record {
            in_counts = h.in_counts;
            out_counts = h.out_counts;
            info_nodup = delete-NodupKeys key s.info_unread h.info_nodup;
            info_counts = λ r. ground (
              arith,
              h.info_counts r,
              count_values-delete (goes_to r) key s.info_unread h.info_nodup,
              number_at-decrement d.recipient r s.info_unread_counts,
            );
            in_ledger = h.in_ledger;
          })
    ]
