-- ===== src/Budget.antt =====
-- The delivery budget of the daemon: internal/daemon/non_daemon_delivery_budget.go. Three pools of
-- workers, one for each path, and what the status shows of them. A nil budget, on which every method
-- returns at once, is not modelled.
pub mod Bounds
pub mod Tests
use tmux_a2a_postman.Base.{
  ℕ, zero, suc, ◌+◌, ◌-◌, Bool, true, false, Option, none, some, Text, if◌then◌else◌, ltb, eqb,
}

-- nonDaemonDeliveryPath
pub data DeliveryPath : Type 0 where
  post auto_ping manual_ping : DeliveryPath
  other_path : Text → DeliveryPath

-- A semaphore is a buffered channel: its capacity and how many values it holds.
pub record Semaphore : Type 0 where
  pub capacity : ℕ
  pub held : ℕ

pub record Budget : Type 0 where
  -- manualFanoutMu is locked
  pub manual_fanout_locked : Bool
  pub post_sem : Semaphore
  pub auto_ping_sem : Semaphore
  pub manual_ping_sem : Semaphore
  pub pending_post : ℕ
  pub pending_auto_ping : ℕ
  pub pending_manual_ping : ℕ
  pub saturation_count : ℕ
  pub last_saturated_at : Option Text
  pub manual_saturated_hit : Bool

-- config.DefaultDaemonSubmitWorkerLimit
abbrev pub default_daemon_submit_worker_limit : ℕ
default_daemon_submit_worker_limit = 8

-- make(chan struct{}, limit)
abbrev pub new_semaphore : ℕ → Semaphore
new_semaphore limit = record { capacity = limit; held = 0 }

-- newNonDaemonDeliveryBudget
abbrev pub new_budget : Budget
new_budget = record {
  manual_fanout_locked = false;
  post_sem = new_semaphore default_daemon_submit_worker_limit;
  auto_ping_sem = new_semaphore default_daemon_submit_worker_limit;
  manual_ping_sem = new_semaphore default_daemon_submit_worker_limit;
  pending_post = 0;
  pending_auto_ping = 0;
  pending_manual_ping = 0;
  saturation_count = 0;
  last_saturated_at = none;
  manual_saturated_hit = false;
}

unfoldable pub worker_limit : Budget → ℕ
worker_limit b = b.post_sem.capacity

-- sem; `none` is a nil channel
unfoldable pub sem : DeliveryPath → Budget → Option Semaphore
sem post b = some b.post_sem
sem auto_ping b = some b.auto_ping_sem
sem manual_ping b = some b.manual_ping_sem
sem (other_path t) b = none

unfoldable pub set_sem : DeliveryPath → Semaphore → Budget → Budget
set_sem post s b = record b { post_sem = s }
set_sem auto_ping s b = record b { auto_ping_sem = s }
set_sem manual_ping s b = record b { manual_ping_sem = s }
set_sem (other_path t) s b = b

-- the time is that of the clock
unfoldable pub record_saturation : Text → Budget → Budget
record_saturation now b = record b {
  saturation_count = suc b.saturation_count;
  last_saturated_at = some now;
}

-- tryStart
unfoldable pub try_start : Text → DeliveryPath → Budget → Budget × Bool
try_start now p b = elim (sem p b) [
  | none ↦ (b, true)
  | some s ↦
      if ltb s.held s.capacity
      then (set_sem p (record s { held = suc s.held }) b, true)
      else (record_saturation now b, false)
]

-- finish: a receive that does not wait
unfoldable pub finish : DeliveryPath → Budget → Budget
finish p b = elim (sem p b) [ none ↦ b | some s ↦ set_sem p (record s { held = s.held - 1 }) b ]

unfoldable pub queue : DeliveryPath → Budget → Budget
queue post b = record b { pending_post = suc b.pending_post }
queue auto_ping b = record b { pending_auto_ping = suc b.pending_auto_ping }
queue manual_ping b = record b { pending_manual_ping = suc b.pending_manual_ping }
queue (other_path t) b = b

-- A count that is 0 stays, as ℕ's subtraction has it.
unfoldable pub unqueue : DeliveryPath → Budget → Budget
unqueue post b = record b { pending_post = b.pending_post - 1 }
unqueue auto_ping b = record b { pending_auto_ping = b.pending_auto_ping - 1 }
unqueue manual_ping b = record b { pending_manual_ping = b.pending_manual_ping - 1 }
unqueue (other_path t) b = b

-- recordSaturationOnceForManualFanout
unfoldable pub record_saturation_once : Text → Budget → Budget
record_saturation_once now b = if b.manual_saturated_hit then b else record b {
  saturation_count = suc b.saturation_count;
  last_saturated_at = some now;
  manual_saturated_hit = true;
}

-- queueManual
unfoldable pub queue_manual : ℕ → Budget → Budget
queue_manual count b = record b { pending_manual_ping = b.pending_manual_ping + count }

-- beginManualFanout, once manualFanoutMu could be locked: the new budget and how many to start
unfoldable pub begin_manual_fanout : Text → ℕ → Budget → Budget × ℕ
begin_manual_fanout now total b =
    let locked = record b { manual_fanout_locked = true } in
    if eqb total 0
    then (locked, 0)
    else let queued = queue_manual total locked in
      if ltb (worker_limit queued) total
      then (record_saturation_once now queued, worker_limit queued)
      else (queued, total)

-- finishManualFanout
unfoldable pub finish_manual_fanout : Budget → Budget
finish_manual_fanout b = record b {
  manual_saturated_hit = false;
  pending_manual_ping = 0;
  manual_fanout_locked = false;
}

-- NonDaemonDeliveryRuntimeDiagnostics
pub record Diagnostics : Type 0 where
  pub worker_limit : ℕ
  pub active_post_count : ℕ
  pub pending_post_count : ℕ
  pub active_auto_ping_count : ℕ
  pub pending_auto_ping_count : ℕ
  pub active_manual_ping_count : ℕ
  pub pending_manual_ping_count : ℕ
  pub saturation_count : ℕ
  pub last_saturated_at : Option Text

unfoldable pub snapshot : Budget → Diagnostics
snapshot b = record {
  worker_limit = worker_limit b;
  active_post_count = b.post_sem.held;
  pending_post_count = b.pending_post;
  active_auto_ping_count = b.auto_ping_sem.held;
  pending_auto_ping_count = b.pending_auto_ping;
  active_manual_ping_count = b.manual_ping_sem.held;
  pending_manual_ping_count = b.pending_manual_ping;
  saturation_count = b.saturation_count;
  last_saturated_at = b.last_saturated_at;
}
