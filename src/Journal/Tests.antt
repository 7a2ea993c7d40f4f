-- ===== src/Journal/Tests.antt =====
-- Runs of the journal on a concrete disk; a payload is a number.
use tmux_a2a_postman.Base.{ℕ, true, false, some, [], ◌≡◌, refl, codes, ok, err, ◌⊎◌, arith, ◌==◌}
use tmux_a2a_postman.Journal.{
  EventType, lease_acquired, session_resolved, mailbox_delivered, control_plane_only, Lease,
  requires_thread_id, thread_missing, is_known_visibility,
}
use tmux_a2a_postman.Journal.Writer.{
  Disk, Writer, AppendRequest, acquire_lease, append_event, commit, event_of, lease_problem,
  next_epoch, next_sequence, max_sequence, lease_mismatch as writer_lease_mismatch,
  unknown_visibility, missing_thread_id,
}
use tmux_a2a_postman.Journal.Replay.{replay, collect, before_lease, lease_mismatch}
use tmux_a2a_postman.Journal.Protocol.{
  Reachable, fresh, acquire, announce, append, IsValidSession, empty_disk,
}
use tmux_a2a_postman.Journal.Consistency.{reachable_journal_replays}
use tmux_a2a_postman.Journal.Race.{append_before_announce_breaks_replay}
use tmux_a2a_postman.Journal.Fencing.{now, acquire_fences_out}

abbrev main_lease : Lease
main_lease = record {
  lease_id = codes "l1";
  lease_epoch = 1;
  holder_context_id = codes "c";
  holder_session_name = codes "main";
  holder_pid = 7;
}

abbrev main_writer : Writer
main_writer = record {
  session = record { session_key = codes "k"; tmux_session_name = codes "main"; generation = 1 };
  lease = main_lease;
}

abbrev request_of : EventType → AppendRequest ℕ
request_of t = record {
  type = t;
  visibility = control_plane_only;
  thread_id = [];
  payload = 0;
  event_id = codes "e";
  occurred_at = codes "now";
}

abbrev leased_disk : Disk ℕ
leased_disk = record empty_disk { lease = some main_lease }

abbrev announced_disk : Disk ℕ
announced_disk = commit (event_of main_writer (request_of lease_acquired) 1) leased_disk

abbrev resolved_disk : Disk ℕ
resolved_disk = commit (event_of main_writer (request_of session_resolved) 2) announced_disk

abbrev delivered_disk : Disk ℕ
delivered_disk = commit (event_of main_writer (request_of mailbox_delivered) 1) leased_disk

main_writer-IsValidSession : IsValidSession main_writer.session
main_writer-IsValidSession = record { keyed = refl; generated = omega arith }

leased_reachable : Reachable leased_disk false
unfolding acquire_lease next_epoch
leased_reachable =
    acquire empty_disk leased_disk false (codes "l1") (codes "c") (codes "main") 7 main_lease fresh
      refl refl

announced_appends :
    append_event main_writer (request_of lease_acquired) leased_disk
    ≡ ok (announced_disk, event_of main_writer (request_of lease_acquired) 1)
unfolding append_event is_known_visibility thread_missing requires_thread_id lease_problem ◌==◌
    next_sequence max_sequence
announced_appends = refl

resolved_appends :
    append_event main_writer (request_of session_resolved) announced_disk
    ≡ ok (resolved_disk, event_of main_writer (request_of session_resolved) 2)
unfolding append_event is_known_visibility thread_missing requires_thread_id lease_problem ◌==◌
    next_sequence max_sequence
resolved_appends = refl

delivered_appends :
    append_event main_writer (request_of mailbox_delivered) leased_disk
    ≡ ok (delivered_disk, event_of main_writer (request_of mailbox_delivered) 1)
unfolding append_event is_known_visibility thread_missing requires_thread_id lease_problem ◌==◌
    next_sequence max_sequence
delivered_appends = refl

resolved_reachable : Reachable resolved_disk true
resolved_reachable =
    append announced_disk resolved_disk main_writer (request_of session_resolved)
      (event_of main_writer (request_of session_resolved) 2)
      (announce leased_disk announced_disk main_writer (request_of lease_acquired)
        (event_of main_writer (request_of lease_acquired) 1) leased_reachable
        main_writer-IsValidSession refl announced_appends)
      main_writer-IsValidSession (ground arith) resolved_appends

reachable_journal_replays_example :
    replay resolved_disk.records ≡ ok (collect resolved_disk.records)
reachable_journal_replays_example = reachable_journal_replays resolved_disk true resolved_reachable

append_before_announce_breaks_replay_example :
    (replay delivered_disk.records ≡ err before_lease)
    ⊎ (replay delivered_disk.records ≡ err lease_mismatch)
append_before_announce_breaks_replay_example =
    append_before_announce_breaks_replay leased_disk delivered_disk main_writer
      (request_of mailbox_delivered) (event_of main_writer (request_of mailbox_delivered) 1)
      leased_reachable main_writer-IsValidSession (ground arith) delivered_appends

abbrev second_lease : Lease
second_lease = record {
  lease_id = codes "l2";
  lease_epoch = 2;
  holder_context_id = codes "d";
  holder_session_name = codes "main";
  holder_pid = 8;
}

abbrev taken_disk : Disk ℕ
taken_disk = record resolved_disk { lease = some second_lease }

acquire_fences_out_example :
    (taken_disk.records ≡ resolved_disk.records)
    × (second_lease.lease_epoch ≡ next_epoch resolved_disk.lease)
    × ((append_event main_writer (request_of mailbox_delivered) taken_disk
          ≡ err writer_lease_mismatch)
        ⊎ ((append_event main_writer (request_of mailbox_delivered) taken_disk
              ≡ err unknown_visibility)
            ⊎ (append_event main_writer (request_of mailbox_delivered) taken_disk
                ≡ err missing_thread_id)))
unfolding acquire_lease next_epoch
acquire_fences_out_example =
    acquire_fences_out (codes "l2") (codes "d") (codes "main") 8 resolved_disk taken_disk taken_disk
      second_lease main_writer (request_of mailbox_delivered) refl now (omega arith)
