-- ===== src/Journal/Consistency.antt =====
-- A journal written by any interleaving of the processes of `Protocol` replays.
use tmux_a2a_postman.Base.{
  sym, ap, beq_iff, sym, ◌∙◌, Option-cases, ℕ, suc, Bool, true, false, Option, none, some, Text,
  ◌≡◌, ◌≢◌, refl, ok, is_empty, ◌<◌, ◌≤◌, arith, inl, inr, trim_space, trim_space_idem, subst,
}
use tmux_a2a_postman.Journal.{lease_acquired, SessionState, Lease, Event, thread_missing}
use tmux_a2a_postman.Journal.Writer.{
  ResolutionMode, ResolutionResult, rotate, Disk, Writer, AppendRequest, acquire_lease,
  append_event, next_epoch, next_sequence, lease_problem, max_sequence, resolve_session, commit,
}
use tmux_a2a_postman.Journal.Replay.{
  Cursor, start, check_all, check_record, check_lease, replay, collect,
}
use tmux_a2a_postman.Journal.Fencing.{max_sequence-append}
use tmux_a2a_postman.Journal.Ordering.{
  check_record_next, check_all-append, sort_records_checked, check_record_advances,
}
use tmux_a2a_postman.Journal.Protocol.{
  Reachable, fresh, resolve, acquire, announce, append, IsValidSession,
}

-- how the lease that a replay ends in stands to the lease on the disk
abbrev pub Fits : Cursor → Bool → Option Lease → Type 0
Fits c a none = (c.lease_epoch ≡ 0) × (a ≡ false)
Fits c true (some l) =
    (c.lease_id ≡ l.lease_id)
    × (c.lease_epoch ≡ l.lease_epoch)
    × (is_empty l.lease_id ≡ false)
    × (1 ≤ l.lease_epoch)
Fits c false (some l) = (is_empty l.lease_id ≡ false) × (c.lease_epoch < l.lease_epoch)

Fits-append :
    (c : Cursor) (o : Option Lease)
    → Fits c true o
    → Fits (record c { expected = suc c.expected }) true o
Fits-append c o f = ground arith

Fits-acquire :
    (c : Cursor) (a : Bool) (o : Option Lease) (l : Lease) (lease_id : Text)
    → Fits c a o
    → is_empty lease_id ≡ false
    → l.lease_id ≡ lease_id
    → l.lease_epoch ≡ next_epoch o
    → Fits c false (some l)
unfolding next_epoch
Fits-acquire c true o l lease_id f n p q = ground arith
Fits-acquire c false o l lease_id f n p q = ground arith

module _ {Raw : Type 0} where
  pub record IsSound (d : Disk Raw) (a : Bool) : Type 0 where
    pub cursor : Cursor
    pub checked : check_all start d.records ≡ ok cursor
    pub next : cursor.expected ≡ next_sequence d.records
    pub fits : Fits cursor a d.lease

  next_sequence-commit :
      (e : Event Raw) (d : Disk Raw)
      → e.sequence ≡ next_sequence d.records
      → next_sequence (commit e d).records ≡ suc e.sequence
  unfolding next_sequence
  next_sequence-commit e d h = ground (
    arith,
    max_sequence-append d.records
        record { name = e.event_id; sequence = e.sequence; event = some e },
  )

  -- A committed event that passes the checks behind a sound journal leaves it sound.
  commit-IsSound :
      (d : Disk Raw) (a b : Bool) (e : Event Raw) (s : IsSound d a) (c : Cursor)
      → e.sequence ≡ next_sequence d.records
      → check_record s.cursor record { name = e.event_id; sequence = e.sequence; event = some e }
        ≡ ok c
      → Fits c b d.lease
      → IsSound (commit e d) b
  commit-IsSound d a b e s c es h f = record {
    cursor = c;
    checked =
        check_all-append start s.cursor d.records
          record { name = e.event_id; sequence = e.sequence; event = some e } s.checked
        ∙ h;
    next = ground (
      arith,
      s.next,
      next_sequence-commit e d es,
      check_record_advances s.cursor c
          record { name = e.event_id; sequence = e.sequence; event = some e } h,
    );
    fits = f;
  }

  -- an append that succeeds: what it commits, under the lease on the disk
  pub record IsAppended (d d' : Disk Raw) (w : Writer) (q : AppendRequest Raw) (e : Event Raw)
      : Type 0 where
    pub committed : d' ≡ commit e d
    pub in_sequence : e.sequence ≡ next_sequence d.records
    pub of_type : e.type ≡ q.type
    of_session : (e.session_key ≡ w.session.session_key) × (e.generation ≡ w.session.generation)
    threaded : thread_missing e.type (trim_space e.thread_id) ≡ false
    pub leased :
        (l : Lease) × (d.lease ≡ some l)
        × (l.lease_id ≡ e.lease_id)
        × (l.lease_epoch ≡ e.lease_epoch)

  pub append_event-IsAppended :
      (d d' : Disk Raw) (w : Writer) (q : AppendRequest Raw) (e : Event Raw)
      → append_event w q d ≡ ok (d', e)
      → IsAppended d d' w q e
  unfolding append_event lease_problem
  append_event-IsAppended d d' w q e h = record {
    committed = ground arith;
    in_sequence = ground arith;
    of_type = ground arith;
    of_session = ground arith;
    threaded = ground (arith, trim_space_idem q.thread_id);
    leased = elim (Option-cases d.lease) [
      | inl n ↦ ground arith
      | inr (l, k) ↦ (l, k, ground (arith, beq_iff l.lease_id w.lease.lease_id), ground arith)
    ];
  }

  pub check_record_appended :
      (d d' : Disk Raw) (a : Bool) (w : Writer) (q : AppendRequest Raw) (e : Event Raw)
      (s : IsSound d a)
      → IsValidSession w.session
      → IsAppended d d' w q e
      → check_record s.cursor record { name = e.event_id; sequence = e.sequence; event = some e }
        ≡ check_lease s.cursor e
  check_record_appended d d' a w q e s v p =
      check_record_next s.cursor e (p.in_sequence ∙ sym s.next)
        (ground (arith, v.keyed, p.of_session)) (ground (arith, v.generated, p.of_session))
        p.threaded

  check_lease_announce :
      (c : Cursor) (e : Event Raw) (o : Option Lease) (l : Lease)
      → Fits c false o
      → o ≡ some l
      → l.lease_id ≡ e.lease_id
      → l.lease_epoch ≡ e.lease_epoch
      → e.type ≡ lease_acquired
      → check_lease c e
        ≡ ok (record c {
          expected = suc c.expected;
          lease_id = e.lease_id;
          lease_epoch = e.lease_epoch;
        })
  unfolding check_lease
  check_lease_announce c e o l f p q r t = ground arith

  check_lease_append :
      (c : Cursor) (e : Event Raw) (o : Option Lease) (l : Lease)
      → Fits c true o
      → o ≡ some l
      → l.lease_id ≡ e.lease_id
      → l.lease_epoch ≡ e.lease_epoch
      → e.type ≢ lease_acquired
      → check_lease c e ≡ ok (record c { expected = suc c.expected })
  unfolding check_lease
  check_lease_append c e o l f p q r t = ground (arith, beq_iff e.lease_id c.lease_id)

  Fits-announce :
      (c : Cursor) (e : Event Raw) (o : Option Lease) (l : Lease)
      → Fits c false o
      → o ≡ some l
      → l.lease_id ≡ e.lease_id
      → l.lease_epoch ≡ e.lease_epoch
      → Fits
          (record c {
            expected = suc c.expected;
            lease_id = e.lease_id;
            lease_epoch = e.lease_epoch;
          })
          true
          o
  Fits-announce c e o l f p q r = ground arith

  IsSound-announce :
      (d d' : Disk Raw) (w : Writer) (q : AppendRequest Raw) (e : Event Raw)
      → IsSound d false
      → IsValidSession w.session
      → q.type ≡ lease_acquired
      → append_event w q d ≡ ok (d', e)
      → IsSound d' true
  IsSound-announce d d' w q e s v t h =
      let p : IsAppended d d' w q e = append_event-IsAppended d d' w q e h in
      let (l, k, i, m) = p.leased in
      subst (λ x. IsSound x true) (sym p.committed)
        (commit-IsSound d false true e s _ p.in_sequence
          (check_record_appended d d' false w q e s v p
            ∙ check_lease_announce s.cursor e d.lease l s.fits k i m (p.of_type ∙ t))
          (Fits-announce s.cursor e d.lease l s.fits k i m))

  IsSound-append :
      (d d' : Disk Raw) (w : Writer) (q : AppendRequest Raw) (e : Event Raw)
      → IsSound d true
      → IsValidSession w.session
      → q.type ≢ lease_acquired
      → append_event w q d ≡ ok (d', e)
      → IsSound d' true
  IsSound-append d d' w q e s v t h =
      let p : IsAppended d d' w q e = append_event-IsAppended d d' w q e h in
      let (l, k, i, m) = p.leased in
      subst (λ x. IsSound x true) (sym p.committed)
        (commit-IsSound d true true e s _ p.in_sequence
          (check_record_appended d d' true w q e s v p
            ∙ check_lease_append s.cursor e d.lease l s.fits k i m (λ x. t (sym p.of_type ∙ x)))
          (Fits-append s.cursor d.lease s.fits))

  IsSound-acquire :
      (d d' : Disk Raw) (a : Bool) (lease_id context_id session : Text) (pid : ℕ) (l : Lease)
      → IsSound d a
      → is_empty lease_id ≡ false
      → acquire_lease lease_id context_id session pid d ≡ ok (d', l)
      → IsSound d' false
  unfolding acquire_lease next_epoch
  IsSound-acquire d d' a lease_id context_id session pid l s n h = record {
    cursor = s.cursor;
    checked = ground (arith, s.checked);
    next = ground (arith, s.next);
    fits =
        let on_disk : some l ≡ d'.lease = ground arith in
        subst (Fits s.cursor false) on_disk
          (Fits-acquire s.cursor a d.lease l lease_id s.fits n (ground arith) (ground arith));
  }

  resolve_keeps :
      (d d' : Disk Raw) (key tmux_session_name : Text) (mode : ResolutionMode) (t : SessionState)
      (result : ResolutionResult)
      → resolve_session key tmux_session_name mode d ≡ ok (d', t, result)
      → (d'.records ≡ d.records) × (d'.lease ≡ d.lease)
  unfolding resolve_session rotate
  resolve_keeps d d' key tmux_session_name mode t result h = ground arith

  IsSound-resolve :
      (d d' : Disk Raw) (a : Bool)
      → IsSound d a
      → d'.records ≡ d.records
      → d'.lease ≡ d.lease
      → IsSound d' a
  IsSound-resolve d d' a s r l = record {
    cursor = s.cursor;
    checked = ap (check_all start) r ∙ s.checked;
    next = s.next ∙ ap next_sequence (sym r);
    fits = subst (Fits s.cursor a) (sym l) s.fits;
  }

  pub reachable-IsSound : (d : Disk Raw) (a : Bool) → Reachable d a → IsSound d a
  unfolding check_all next_sequence max_sequence
  reachable-IsSound d a fresh = record {
    cursor = start;
    checked = refl;
    next = refl;
    fits = (refl, refl);
  }
  reachable-IsSound d a (resolve d₀ _ _ key name mode t result h e) =
      let (r, l) = resolve_keeps d₀ d key name mode t result e in
      IsSound-resolve d₀ d a (reachable-IsSound d₀ a h) r l
  reachable-IsSound d a (acquire d₀ _ a₀ id context_id session pid l h n e) =
      IsSound-acquire d₀ d a₀ id context_id session pid l (reachable-IsSound d₀ a₀ h) n e
  reachable-IsSound d a (announce d₀ _ w q x h v t e) =
      IsSound-announce d₀ d w q x (reachable-IsSound d₀ false h) v t e
  reachable-IsSound d a (append d₀ _ w q x h v t e) =
      IsSound-append d₀ d w q x (reachable-IsSound d₀ true h) v t e

  -- Whatever processes have opened writers and appended, in any order in which every acquired lease
  -- is announced before the next append under it: a replay of the journal succeeds, and returns
  -- every committed event in the order in which they were appended.
  pub reachable_journal_replays :
      (d : Disk Raw) (a : Bool) → Reachable d a → replay d.records ≡ ok (collect d.records)
  unfolding replay
  reachable_journal_replays d a h =
      let s = reachable-IsSound d a h in
      ground (arith, s.checked, sort_records_checked start s.cursor d.records s.checked)
