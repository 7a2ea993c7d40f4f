-- ===== src/Journal/Replay.antt =====
-- replayEachEvent of internal/journal/journal.go: the committed records in the order of their
-- sequence numbers, each checked against those before it.
use tmux_a2a_postman.Base.{
  ℕ, suc, Bool, true, false, ◌||◌, ◌&&◌, not, none, some, Text, ◌==◌, if◌then◌else◌, is_empty, List,
  [], ◌∷◌, ltb, eqb, leb, text_lt, trim_space, Result, ok, err,
}
use tmux_a2a_postman.Journal.{Event, EventType, lease_acquired, CommittedRecord, thread_missing}

pub data ReplayError : Type 0 where
  duplicate_sequence sequence_gap unreadable wrong_sequence missing_session_key : ReplayError
  invalid_generation missing_thread_id missing_lease_id invalid_lease_epoch : ReplayError
  non_monotonic_epoch before_lease lease_mismatch : ReplayError

-- expectedSequence, currentLeaseID and currentLeaseEpoch
pub record Cursor : Type 0 where
  pub expected : ℕ
  pub lease_id : Text
  pub lease_epoch : ℕ

abbrev pub start : Cursor
start = record { expected = 1; lease_id = []; lease_epoch = 0 }

abbrev pub is_lease_acquired : EventType → Bool
is_lease_acquired lease_acquired = true
is_lease_acquired _ = false

module _ {Raw : Type 0} where
  -- the lease part of the checks
  unfoldable pub check_lease : Cursor → Event Raw → Result ReplayError Cursor
  check_lease c e =
      if is_lease_acquired e.type
      then (if is_empty e.lease_id
          then err missing_lease_id
          else if ltb e.lease_epoch 1
          then err invalid_lease_epoch
          else if not (eqb c.lease_epoch 0) && leb e.lease_epoch c.lease_epoch
          then err non_monotonic_epoch
          else ok (record c {
            expected = suc c.expected;
            lease_id = e.lease_id;
            lease_epoch = e.lease_epoch;
          }))
      else if is_empty c.lease_id
      then err before_lease
      else if not (e.lease_id == c.lease_id) || not (eqb e.lease_epoch c.lease_epoch)
      then err lease_mismatch
      else ok (record c { expected = suc c.expected })

  unfoldable pub check_event : Cursor → ℕ → Event Raw → Result ReplayError Cursor
  check_event c sequence e =
      if not (eqb e.sequence sequence)
      then err wrong_sequence
      else if is_empty e.session_key
      then err missing_session_key
      else if ltb e.generation 1
      then err invalid_generation
      else if thread_missing e.type (trim_space e.thread_id)
      then err missing_thread_id
      else check_lease c e

  unfoldable pub check_record : Cursor → CommittedRecord Raw → Result ReplayError Cursor
  check_record c r =
      if ltb r.sequence c.expected
      then err duplicate_sequence
      else if ltb c.expected r.sequence
      then err sequence_gap
      else elim r.event [ none ↦ err unreadable | some e ↦ check_event c r.sequence e ]

  -- the order of sort.Slice
  unfoldable pub record_lt : CommittedRecord Raw → CommittedRecord Raw → Bool
  record_lt a b =
      if eqb a.sequence b.sequence then text_lt a.name b.name else ltb a.sequence b.sequence

  unfoldable pub insert_record :
      CommittedRecord Raw → List (CommittedRecord Raw) → List (CommittedRecord Raw)
  insert_record r [] = r ∷ []
  insert_record r (x ∷ xs) =
      let rest = insert_record r xs in if record_lt x r then x ∷ rest else r ∷ x ∷ xs

  unfoldable pub sort_records : List (CommittedRecord Raw) → List (CommittedRecord Raw)
  sort_records [] = []
  sort_records (r ∷ rs) = insert_record r (sort_records rs)

  -- the loop, without a callback: the cursor behind the last record, or the first error
  unfoldable pub check_all : Cursor → List (CommittedRecord Raw) → Result ReplayError Cursor
  check_all c [] = ok c
  check_all c (r ∷ rs) = elim (check_record c r) [ err x ↦ err x | ok c' ↦ check_all c' rs ]

  -- what the callback of `Replay` collects
  unfoldable pub collect : List (CommittedRecord Raw) → List (Event Raw)
  collect [] = []
  collect (r ∷ rs) = let rest = collect rs in elim r.event [ none ↦ rest | some e ↦ e ∷ rest ]

  -- Replay
  unfoldable pub replay : List (CommittedRecord Raw) → Result ReplayError (List (Event Raw))
  replay records =
      let sorted = sort_records records in
      elim (check_all start sorted) [ err x ↦ err x | ok c ↦ ok (collect sorted) ]
