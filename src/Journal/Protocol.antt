-- ===== src/Journal/Protocol.antt =====
-- The journal under several processes: each opens a writer by acquiring a lease and appending
-- `lease_acquired`, as OpenShadowWriter does, and then appends. Acquiring and appending run under
-- the append authority fence, so that the steps of the processes come one after another, in any order;
-- resolving a session takes no lock, and changes neither the records nor the lease.
use tmux_a2a_postman.Base.{ℕ, Bool, true, false, none, Text, [], ◌≡◌, ◌≢◌, ok, is_empty, ◌≤◌}
use tmux_a2a_postman.Journal.{lease_acquired, SessionState, Lease, Event}
use tmux_a2a_postman.Journal.Writer.{
  ResolutionMode, ResolutionResult, resolve_session, Disk, Writer, AppendRequest, acquire_lease,
  append_event,
}

-- What ResolveSession gives a writer: a key and a generation from 1 on.
pub record IsValidSession (s : SessionState) : Type 0 where
  pub keyed : is_empty s.session_key ≡ false
  pub generated : 1 ≤ s.generation

abbrev pub empty_disk : {Raw : Type 0} → Disk Raw
empty_disk = record { lease = none; session = none; records = [] }

module _ {Raw : Type 0} where
  -- A disk, and whether the lease on it has been announced by its `lease_acquired` event. A writer
  -- whose session is valid stands for any process: only the lease on the disk lets it append.
  pub data Reachable : Disk Raw → Bool → Type 0 where
    fresh : Reachable empty_disk false
    resolve :
        (d d' : Disk Raw) (a : Bool) (key tmux_session_name : Text) (mode : ResolutionMode)
        (s : SessionState) (result : ResolutionResult)
        → Reachable d a
        → resolve_session key tmux_session_name mode d ≡ ok (d', s, result)
        → Reachable d' a
    acquire :
        (d d' : Disk Raw) (a : Bool) (lease_id context_id session : Text) (pid : ℕ) (l : Lease)
        → Reachable d a
        → is_empty lease_id ≡ false
        → acquire_lease lease_id context_id session pid d ≡ ok (d', l)
        → Reachable d' false
    announce :
        (d d' : Disk Raw) (w : Writer) (q : AppendRequest Raw) (e : Event Raw)
        → Reachable d false
        → IsValidSession w.session
        → q.type ≡ lease_acquired
        → append_event w q d ≡ ok (d', e)
        → Reachable d' true
    append :
        (d d' : Disk Raw) (w : Writer) (q : AppendRequest Raw) (e : Event Raw)
        → Reachable d true
        → IsValidSession w.session
        → q.type ≢ lease_acquired
        → append_event w q d ≡ ok (d', e)
        → Reachable d' true
