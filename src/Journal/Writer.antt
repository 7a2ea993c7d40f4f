-- ===== src/Journal/Writer.antt =====
-- The writing side of internal/journal/journal.go: AcquireLease, ResolveSession and the appends of a
-- Writer. Acquiring a lease and appending run whole under the append authority fence; ResolveSession and
-- OpenCurrentWriter take no lock, and are taken as one step each, too: what they read and write is not
-- what the others do, or only read. Random identifiers are arguments; the file operations succeed.
use tmux_a2a_postman.Base.{
  ℕ, suc, ◌+◌, Bool, false, ◌||◌, not, Option, none, some, Text, ◌==◌, if◌then◌else◌, is_empty,
  List, [], ◌∷◌, ◌++◌, ltb, eqb, trim_space, Result, ok, err,
}
use tmux_a2a_postman.Journal.{
  Event, EventType, CommittedRecord, thread_missing, SessionState, Lease, Visibility,
  is_known_visibility,
}

pub data JournalError : Type 0 where
  invalid_existing_epoch missing_session_key bad_generation : JournalError
  unknown_visibility missing_thread_id no_current_lease lease_mismatch : JournalError
  invalid_session_state invalid_current_lease : JournalError

-- lease/current.json, journal/session.json and the files of journal/records
pub record Disk (Raw : Type 0) : Type 0 where
  pub lease : Option Lease
  pub session : Option SessionState
  pub records : List (CommittedRecord Raw)

pub record Writer : Type 0 where
  pub session : SessionState
  pub lease : Lease

pub data ResolutionMode : Type 0 where
  resume_current explicit_rebind explicit_new_session : ResolutionMode

pub data ResolutionResult : Type 0 where
  created resumed rotated_rebind rotated_new_session : ResolutionResult

-- What a caller of an append gives, and what the clock and the random source give.
pub record AppendRequest (Raw : Type 0) : Type 0 where
  pub type : EventType
  pub visibility : Visibility
  pub thread_id : Text
  pub payload : Raw
  pub event_id : Text
  pub occurred_at : Text

unfoldable pub rotate : ResolutionMode → SessionState → SessionState × ResolutionResult
rotate resume_current s = (s, resumed)
rotate explicit_rebind s = (record s { generation = suc s.generation }, rotated_rebind)
rotate explicit_new_session s = (record s { generation = suc s.generation }, rotated_new_session)

unfoldable pub next_epoch : Option Lease → ℕ
next_epoch none = 1
next_epoch (some l) = suc l.lease_epoch

abbrev has_bad_epoch : Option Lease → Bool
has_bad_epoch none = false
has_bad_epoch (some l) = ltb l.lease_epoch 1

module _ {Raw : Type 0} where
  unfoldable pub resolve_session :
      Text
      → Text
      → ResolutionMode
      → Disk Raw
      → Result JournalError (Disk Raw × SessionState × ResolutionResult)
  resolve_session key tmux_session_name mode d = elim d.session [
    | none ↦
        let fresh : SessionState = record {
          session_key = key;
          tmux_session_name = tmux_session_name;
          generation = 1;
        } in
        ok (record d { session = some fresh }, fresh, created)
    | some existing ↦
        if is_empty existing.session_key
        then err missing_session_key
        else if ltb existing.generation 1
        then err bad_generation
        else let (rotated, result) = rotate mode existing in
          let next = record rotated { tmux_session_name = tmux_session_name } in
          ok (record d { session = some next }, next, result)
  ]

  unfoldable pub acquire_lease :
      Text → Text → Text → ℕ → Disk Raw → Result JournalError (Disk Raw × Lease)
  acquire_lease lease_id context_id holder_session_name holder_pid d =
      if has_bad_epoch d.lease
      then err invalid_existing_epoch
      else let l : Lease = record {
        lease_id = lease_id;
        lease_epoch = next_epoch d.lease;
        holder_context_id = context_id;
        holder_session_name = holder_session_name;
        holder_pid = holder_pid;
      } in
        ok (record d { lease = some l }, l)

  unfoldable pub max_sequence : List (CommittedRecord Raw) → ℕ
  max_sequence [] = 0
  max_sequence (r ∷ rs) =
      let rest = max_sequence rs in if ltb rest r.sequence then r.sequence else rest

  unfoldable pub next_sequence : List (CommittedRecord Raw) → ℕ
  next_sequence rs = max_sequence rs + 1

  -- whether ensureActiveLease returns an error, and which
  unfoldable pub lease_problem : Writer → Disk Raw → Option JournalError
  lease_problem w d = elim d.lease [
    | none ↦ some no_current_lease
    | some current ↦
        if not (current.lease_id == w.lease.lease_id)
          || not (eqb current.lease_epoch w.lease.lease_epoch)
        then some lease_mismatch
        else none
  ]

  abbrev pub event_of : Writer → AppendRequest Raw → ℕ → Event Raw
  event_of w q sequence = record {
    sequence = sequence;
    event_id = q.event_id;
    type = q.type;
    visibility = q.visibility;
    session_key = w.session.session_key;
    tmux_session_name = w.session.tmux_session_name;
    generation = w.session.generation;
    thread_id = trim_space q.thread_id;
    lease_id = w.lease.lease_id;
    lease_epoch = w.lease.lease_epoch;
    occurred_at = q.occurred_at;
    payload = q.payload;
  }

  -- writeJSONAtomically of one record; the name's sequence number is that of the event
  abbrev pub commit : Event Raw → Disk Raw → Disk Raw
  commit e d = record d {
    records = d.records ++ record { name = e.event_id; sequence = e.sequence; event = some e } ∷ [];
  }

  -- the last part of an append, once the request is valid and the lease is active
  abbrev pub append_now : Writer → AppendRequest Raw → Disk Raw → Disk Raw × Event Raw
  append_now w q d = let e = event_of w q (next_sequence d.records) in (commit e d, e)

  unfoldable pub append_event :
      Writer → AppendRequest Raw → Disk Raw → Result JournalError (Disk Raw × Event Raw)
  append_event w q d =
      if not (is_known_visibility q.visibility)
      then err unknown_visibility
      else if thread_missing q.type (trim_space q.thread_id)
      then err missing_thread_id
      else elim (lease_problem w d) [ some x ↦ err x | none ↦ ok (append_now w q d) ]

  -- OpenCurrentWriter: a writer under whatever lease stands on the disk
  unfoldable pub open_current_writer : Disk Raw → Result JournalError Writer
  open_current_writer d = elim d.session [
    | none ↦ err invalid_session_state
    | some s ↦
        if is_empty s.session_key || ltb s.generation 1
        then err invalid_session_state
        else elim d.lease [
          | none ↦ err invalid_current_lease
          | some l ↦
              if is_empty l.lease_id || ltb l.lease_epoch 1
              then err invalid_current_lease
              else ok (record { session = s; lease = l })
        ]
  ]
