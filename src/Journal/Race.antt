-- ===== src/Journal/Race.antt =====
-- What OpenCurrentWriter can do to a journal: it takes the lease on the disk, also when that lease has
-- not been announced by its `lease_acquired` event yet.
use tmux_a2a_postman.Base.{
  false, Option, some, [], ◌∷◌, ◌++◌, ◌≡◌, ◌≢◌, ok, err, arith, ◌⊎◌, inl, inr, sym, ◌∙◌, subst,
}
use tmux_a2a_postman.Journal.{lease_acquired, Lease, Event, CommittedRecord}
use tmux_a2a_postman.Journal.Writer.{Disk, Writer, AppendRequest, append_event}
use tmux_a2a_postman.Journal.Replay.{
  ReplayError, Cursor, start, check_lease, check_record, replay, lease_mismatch, before_lease,
}
use tmux_a2a_postman.Journal.Ordering.{check_all-append, sort_records_next}
use tmux_a2a_postman.Journal.Protocol.{Reachable, IsValidSession}
use tmux_a2a_postman.Journal.Consistency.{
  IsSound, IsAppended, append_event-IsAppended, check_record_appended, reachable-IsSound, Fits,
}

module _ {Raw : Type 0} where
  check_lease_unannounced :
      (c : Cursor) (e : Event Raw) (o : Option Lease) (l : Lease)
      → Fits c false o
      → o ≡ some l
      → l.lease_epoch ≡ e.lease_epoch
      → e.type ≢ lease_acquired
      → (check_lease c e ≡ err before_lease) ⊎ (check_lease c e ≡ err lease_mismatch)
  unfolding check_lease
  check_lease_unannounced c e o l f p q t = ground arith

  replay_rejects :
      (d : Disk Raw) (s : IsSound d false) (r : CommittedRecord Raw) (x : ReplayError)
      → r.sequence ≡ s.cursor.expected
      → check_record s.cursor r ≡ err x
      → replay (d.records ++ r ∷ []) ≡ err x
  unfolding replay
  replay_rejects d s r x n h = ground (
    arith,
    check_all-append start s.cursor d.records r s.checked,
    sort_records_next start s.cursor d.records r s.checked n,
  )

  -- In a reachable journal whose current lease is not announced yet, an append of anything but
  -- `lease_acquired` that succeeds, such as one through OpenCurrentWriter, leaves records that no
  -- replay accepts.
  pub append_before_announce_breaks_replay :
      (d d' : Disk Raw) (w : Writer) (q : AppendRequest Raw) (e : Event Raw)
      → Reachable d false
      → IsValidSession w.session
      → q.type ≢ lease_acquired
      → append_event w q d ≡ ok (d', e)
      → (replay d'.records ≡ err before_lease) ⊎ (replay d'.records ≡ err lease_mismatch)
  append_before_announce_breaks_replay d d' w q e h v t a =
      let s : IsSound d false = reachable-IsSound d false h in
      let p : IsAppended d d' w q e = append_event-IsAppended d d' w q e a in
      let (l, k, i, m) = p.leased in
      let c : check_record s.cursor
            record { name = e.event_id; sequence = e.sequence; event = some e }
          ≡ check_lease s.cursor e =
        check_record_appended d d' false w q e s v p in
      let r =
        replay_rejects d s record { name = e.event_id; sequence = e.sequence; event = some e } in
      subst (λ x. (replay x.records ≡ err before_lease) ⊎ (replay x.records ≡ err lease_mismatch))
        (sym p.committed)
        (elim (check_lease_unannounced s.cursor e d.lease l s.fits k m
          (λ x. t (sym p.of_type ∙ x))) [
            | inl b ↦ inl (r before_lease (p.in_sequence ∙ sym s.next) (c ∙ b))
            | inr b ↦ inr (r lease_mismatch (p.in_sequence ∙ sym s.next) (c ∙ b))
          ])
