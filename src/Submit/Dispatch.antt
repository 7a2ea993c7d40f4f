-- ===== src/Submit/Dispatch.antt =====
-- How the daemon dispatches request files to workers: internal/daemon/runtime.go, with
-- daemonSubmitSessionDir of internal/daemon/daemon.go. What reading a request file gives is an argument
-- of every step, as the files change in between.

pub mod Steps
pub mod Serving
pub mod Coverage
pub mod Pops
pub mod Rounds
pub mod Tests
use tmux_a2a_postman.Base.{
  ℕ, zero, suc, ◌+◌, Bool, true, false, not, ◌&&◌, ◌||◌, Option, none, some, Text, List, [], ◌∷◌,
  ◌++◌, ◌==◌, is_empty, if◌then◌else◌, ltb, Map, lookup, insert, delete, codes, path_base, path_dir,
  length,
}
use tmux_a2a_postman.Submit.{
  submit_other, submit_runtime_profile, SubmitRequest, SubmitCommand, submit_send, submit_pop,
  submit_runtime_diagnostics,
}

-- A worker's request, and what it sends when it is done
pub record Job : Type 0 where
  pub request_path : Text
  pub dispatch_key : Text

-- activeDaemonSubmitKeys, the tokens in daemonSubmitSem with its capacity, the workers that run, what
-- daemonSubmitResults holds, the workers that have sent their result but hold their token still, and the
-- requests for diagnostics that were answered at once
pub record Dispatcher : Type 0 where
  pub active : Map Bool
  pub tokens : ℕ
  pub limit : ℕ
  pub running : List Job
  pub results : List Job
  pub releasing : ℕ
  pub saturation_count : ℕ
  pub answered : List Text

unfoldable pub new_dispatcher : ℕ → Dispatcher
new_dispatcher limit = record {
  active = [];
  tokens = 0;
  limit = limit;
  running = [];
  results = [];
  releasing = 0;
  saturation_count = 0;
  answered = [];
}

-- The directory of the session of a request file, if the path has the form of one
unfoldable pub daemon_submit_session_dir : Text → Option Text
unfolding path_dir path_base
daemon_submit_session_dir path =
    let request_dir = path_dir path in
    let submit_dir = path_dir request_dir in
    let snapshot_dir = path_dir submit_dir in
    let session_dir = path_dir snapshot_dir in
    if path_base request_dir == codes "requests"
      && (path_base submit_dir == codes "daemon-submit"
          && (path_base snapshot_dir == codes "snapshot"
              && not (session_dir == codes "." || session_dir == codes "/")))
    then some session_dir
    else none

-- the keys of a request that is read
unfoldable pub key_of_request : SubmitRequest → Text → Text → Text
key_of_request r session_dir path = elim r.command [
  | submit_pop ↦
      if is_empty r.node
      then codes "pop:" ++ session_dir
      else codes "pop:" ++ (session_dir ++ (b':' ∷ r.node))
  | submit_send ↦ codes "send:" ++ path
  | submit_runtime_diagnostics ↦ codes "request:" ++ path
  | submit_runtime_profile ↦ codes "request:" ++ path
  | submit_other c ↦ codes "request:" ++ path
]

abbrev pub Reader : Type 0
Reader = Text → Option SubmitRequest

unfoldable pub daemon_submit_dispatch_key : Reader → Text → Text
unfolding daemon_submit_session_dir key_of_request
daemon_submit_dispatch_key read path = elim (daemon_submit_session_dir path) [
  | none ↦ codes "path:" ++ path
  | some session_dir ↦ elim (read path) [
    | none ↦ codes "session:" ++ session_dir
    | some r ↦ key_of_request r session_dir path
  ]
]

abbrev pub is_diagnostics_command : SubmitCommand → Bool
is_diagnostics_command submit_runtime_diagnostics = true
is_diagnostics_command _ = false

unfoldable pub is_runtime_diagnostics_submit_request : Reader → Text → Bool
is_runtime_diagnostics_submit_request read path = elim (read path) [
  | none ↦ false
  | some r ↦ is_diagnostics_command r.command
]

pub data DispatchStatus : Type 0 where
  dispatched deferred saturated : DispatchStatus

-- rt.activeDaemonSubmitKeys[key]
abbrev pub is_active_key : Text → Dispatcher → Bool
is_active_key key s = elim (lookup key s.active) [ none ↦ false | some b ↦ b ]

-- A worker for the request takes a token and starts.
unfoldable pub launch : Job → Dispatcher → Dispatcher
launch j s = record s {
  active = insert j.dispatch_key true s.active;
  tokens = suc s.tokens;
  running = j ∷ s.running;
}

unfoldable pub dispatch_keyed : Job → Dispatcher → DispatchStatus × Dispatcher
unfolding launch
dispatch_keyed j s =
    if is_active_key j.dispatch_key s
    then (deferred, s)
    else if ltb s.tokens s.limit
    then (dispatched, launch j s)
    else (saturated, record s { saturation_count = suc s.saturation_count })

unfoldable pub dispatch_daemon_submit_request :
    Reader → Text → Dispatcher → DispatchStatus × Dispatcher
unfolding is_runtime_diagnostics_submit_request daemon_submit_dispatch_key dispatch_keyed
dispatch_daemon_submit_request read path s =
    if is_runtime_diagnostics_submit_request read path
    then (dispatched, record s { answered = path ∷ s.answered })
    else dispatch_keyed
        (record { request_path = path; dispatch_key = daemon_submit_dispatch_key read path }) s

-- The start of `handleDaemonSubmitResult`; the events and the dispatches that it goes on with are other steps.
unfoldable pub handle_daemon_submit_result : Job → Dispatcher → Dispatcher
handle_daemon_submit_result j s = record s { active = delete j.dispatch_key s.active }

-- The inner loop over the pending requests of a session: up to the first one that is dispatched
pub record SessionTry : Type 0 where
  pub status : DispatchStatus
  pub rest : List Text
  pub state : Dispatcher

unfoldable pub try_session : Reader → List Text → Dispatcher → SessionTry
unfolding dispatch_daemon_submit_request
try_session read [] s = record { status = deferred; rest = []; state = s }
try_session read (p ∷ ps) s =
    let (status, s') = dispatch_daemon_submit_request read p s in
    let later = try_session read ps s' in
    elim status [
      | saturated ↦ record { status = saturated; rest = ps; state = s' }
      | dispatched ↦ record { status = dispatched; rest = ps; state = s' }
      | deferred ↦ later
    ]

-- A round over the sessions: one dispatch for each, unless the workers run out
pub record Round : Type 0 where
  pub is_saturated : Bool
  pub dispatched_in_round : Bool
  pub pending : List (List Text)
  pub state : Dispatcher

unfoldable pub run_round : Reader → List (List Text) → Dispatcher → Round
unfolding try_session
run_round read [] s = record {
  is_saturated = false;
  dispatched_in_round = false;
  pending = [];
  state = s;
}
run_round read (ps ∷ sessions) s =
    let t = try_session read ps s in
    let later = run_round read sessions t.state in
    elim t.status [
      | saturated ↦ record {
        is_saturated = true;
        dispatched_in_round = false;
        pending = t.rest ∷ sessions;
        state = t.state;
      }
      | dispatched ↦ record later { dispatched_in_round = true; pending = t.rest ∷ later.pending }
      | deferred ↦ record later { pending = t.rest ∷ later.pending }
    ]

-- dispatchPendingDaemonSubmitRequests on what is pending; `none` if the fuel does not suffice.
unfoldable pub dispatch_pending : Reader → ℕ → List (List Text) → Dispatcher → Option Round
unfolding run_round
dispatch_pending read zero pending s = none
dispatch_pending read (suc fuel) pending s =
    let r = run_round read pending s in
    elim (not r.is_saturated && r.dispatched_in_round) [
      | true ↦ dispatch_pending read fuel r.pending r.state
      | false ↦ some r
    ]
