-- ===== src/Journal/Fencing.antt =====
-- Who may write to the journal: the lease checks of internal/journal/journal.go.
use tmux_a2a_postman.Base.{
  ◌∙◌, ap, ◌≤◌, some, ℕ, ◌<◌, Text, List, [], ◌∷◌, ◌++◌, ok, err, ◌≡◌, arith, ◌⊎◌,
}
use tmux_a2a_postman.Journal.{CommittedRecord, SessionState, Event, Lease}
use tmux_a2a_postman.Journal.Writer.{
  Disk, Writer, AppendRequest, lease_mismatch, unknown_visibility, missing_thread_id, acquire_lease,
  append_event, lease_problem, next_epoch, max_sequence, resolve_session, rotate, ResolutionMode,
  ResolutionResult,
}

-- What any processes make of a disk: sessions are resolved, leases acquired and events appended, in any
-- order.
pub data Later {Raw : Type 0} (d : Disk Raw) : Disk Raw → Type 0 where
  now : Later d d
  resolved :
      (d' d'' : Disk Raw) (key tmux_session_name : Text) (mode : ResolutionMode) (s : SessionState)
      (result : ResolutionResult)
      → Later d d'
      → resolve_session key tmux_session_name mode d' ≡ ok (d'', s, result)
      → Later d d''
  acquired :
      (d' d'' : Disk Raw) (lease_id context_id session : Text) (pid : ℕ) (l : Lease)
      → Later d d'
      → acquire_lease lease_id context_id session pid d' ≡ ok (d'', l)
      → Later d d''
  appended :
      (d' d'' : Disk Raw) (w : Writer) (q : AppendRequest Raw) (e : Event Raw)
      → Later d d'
      → append_event w q d' ≡ ok (d'', e)
      → Later d d''

module _ {Raw : Type 0} where
  -- the disk has a lease of the epoch or a later one
  abbrev IsLeasedFrom : ℕ → Disk Raw → Type 0
  IsLeasedFrom n d = (l : Lease) × (d.lease ≡ some l) × (n ≤ l.lease_epoch)

  resolve-lease :
      (d d' : Disk Raw) (key tmux_session_name : Text) (mode : ResolutionMode) (s : SessionState)
      (result : ResolutionResult)
      → resolve_session key tmux_session_name mode d ≡ ok (d', s, result)
      → d'.lease ≡ d.lease
  unfolding resolve_session rotate
  resolve-lease d d' key tmux_session_name mode s result h = ground arith

  append-lease :
      (d d' : Disk Raw) (w : Writer) (q : AppendRequest Raw) (e : Event Raw)
      → append_event w q d ≡ ok (d', e)
      → d'.lease ≡ d.lease
  unfolding append_event
  append-lease d d' w q e h = ground arith

  acquire_lease-IsLeased :
      (lease_id context_id session : Text) (pid : ℕ) (d d' : Disk Raw) (l : Lease)
      → acquire_lease lease_id context_id session pid d ≡ ok (d', l)
      → (d'.records ≡ d.records) × (l.lease_epoch ≡ next_epoch d.lease) × (d'.lease ≡ some l)
  unfolding acquire_lease
  acquire_lease-IsLeased lease_id context_id session pid d d' l h = ground arith

  Later-IsLeasedFrom : {d d' : Disk Raw} (n : ℕ) → Later d d' → IsLeasedFrom n d → IsLeasedFrom n d'
  unfolding next_epoch
  Later-IsLeasedFrom n now h = h
  Later-IsLeasedFrom n (resolved d' d'' key tmux_session_name mode s result r e) h =
      let (l, q, le) = Later-IsLeasedFrom n r h in
      (l, resolve-lease d' d'' key tmux_session_name mode s result e ∙ q, le)
  Later-IsLeasedFrom n (acquired d' d'' lease_id context_id session pid l r e) h =
      let (l', q, le) = Later-IsLeasedFrom n r h in
      let (records, epoch, held) =
        acquire_lease-IsLeased lease_id context_id session pid d' d'' l e in
      (l, held, omega (arith, le, epoch ∙ ap next_epoch q))
  Later-IsLeasedFrom n (appended d' d'' w q e r h') h =
      let (l, k, le) = Later-IsLeasedFrom n r h in (l, append-lease d' d'' w q e h' ∙ k, le)

  append-fenced :
      (n : ℕ) (d : Disk Raw) (w : Writer) (q : AppendRequest Raw)
      → IsLeasedFrom n d
      → w.lease.lease_epoch < n
      → (append_event w q d ≡ err lease_mismatch)
        ⊎ ((append_event w q d ≡ err unknown_visibility)
            ⊎ (append_event w q d ≡ err missing_thread_id))
  unfolding append_event lease_problem
  append-fenced n d w q (l, k, le) lt = ground (arith, k)

  -- A lease that is acquired is that of the next epoch and changes no record. From then on a writer
  -- whose lease is of an earlier epoch can append nothing: whatever sessions are resolved, leases
  -- acquired and events appended in the meantime, its append fails.
  pub acquire_fences_out :
      (lease_id context_id session : Text) (pid : ℕ) (d d' d'' : Disk Raw) (l : Lease) (w : Writer)
      (q : AppendRequest Raw)
      → acquire_lease lease_id context_id session pid d ≡ ok (d', l)
      → Later d' d''
      → w.lease.lease_epoch < next_epoch d.lease
      → (d'.records ≡ d.records)
        × (l.lease_epoch ≡ next_epoch d.lease)
        × ((append_event w q d'' ≡ err lease_mismatch)
            ⊎ ((append_event w q d'' ≡ err unknown_visibility)
                ⊎ (append_event w q d'' ≡ err missing_thread_id)))
  acquire_fences_out lease_id context_id session pid d d' d'' l w q h later lt =
      let (records, epoch, held) =
        acquire_lease-IsLeased lease_id context_id session pid d d' l h in
      let leased = Later-IsLeasedFrom l.lease_epoch later (l, held, omega arith) in
      (records, epoch, append-fenced l.lease_epoch d'' w q leased (omega (arith, lt, epoch)))

  pub max_sequence-append :
      (rs : List (CommittedRecord Raw)) (r : CommittedRecord Raw)
      → max_sequence rs < r.sequence
      → max_sequence (rs ++ r ∷ []) ≡ r.sequence
  unfolding max_sequence
  max_sequence-append [] r h = ground arith
  max_sequence-append (x ∷ xs) r h = ground (arith, max_sequence-append xs r)
