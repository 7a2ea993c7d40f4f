-- ===== src/Projection/TaskRuns/Distinct.antt =====
-- Each task is reported once: internal/projection/task_run_state.go.
use tmux_a2a_postman.Base.{
  ℕ, ◌+◌, ◌≤◌, Bool, true, false, ◌&&◌, ◌||◌, Option, some, Text, List, [], ◌∷◌, ◌==◌, is_empty,
  if◌then◌else◌, Map, lookup, insert, has_key, NodupKeys, insert-NodupKeys, lookup-insert, count_if,
  Option-cases, Result-cases, Bool-cases, inl, inr, ok, arith, ◌≡◌, refl, ap, ◌∙◌, subst, beq_iff,
  beq_refl,
}
use tmux_a2a_postman.Journal.{Event, CommittedRecord, SessionState}
use tmux_a2a_postman.Journal.Replay.{replay}
use tmux_a2a_postman.Envelope.{Metadata}
use tmux_a2a_postman.Projection.{fold_current, load_current_session_state}
use tmux_a2a_postman.Projection.Folds.{fold_current_keeps}
use tmux_a2a_postman.Projection.InputRequests.{MailboxEventPayload}
use tmux_a2a_postman.Projection.InputRequests.Loop.{simplified, decode_mailbox_event_payload}
use tmux_a2a_postman.Projection.TaskRuns.{
  TaskRunDetail, TaskRunAccumulator, TaskRunFold, no_task_runs, task_run_key, new_task_run,
  note_first, note_latest, note_thread, note_opened, note_filled, note_task_event, task_run_at,
  on_task_metadata, on_task_payload, task_run_metadata_from_payload, is_task_event,
  finished_task_run, insert_task_run, finished_task_runs, task_run_step, project_task_run_state,
}

abbrev key_of : TaskRunDetail → Text
key_of t = task_run_key t.task_id t.run_id

-- no key stands twice, and each is the key of its task
abbrev IsKeyed : Map TaskRunAccumulator → Type 0
IsKeyed m =
    NodupKeys m × ((k : Text) (a : TaskRunAccumulator) → lookup k m ≡ some a → key_of a.detail ≡ k)

key_of-note_first :
    (m : Metadata) (at : Text) (a : TaskRunAccumulator)
    → key_of (note_first m at a).detail ≡ key_of a.detail
unfolding note_first
key_of-note_first m at a = ground arith

key_of-note_latest :
    (m : Metadata) (at : Text) (a : TaskRunAccumulator)
    → key_of (note_latest m at a).detail ≡ key_of a.detail
unfolding note_latest
key_of-note_latest m at a = ground arith

key_of-note_thread :
    (m : Metadata) (a : TaskRunAccumulator) → key_of (note_thread m a).detail ≡ key_of a.detail
unfolding note_thread
key_of-note_thread m a = ground arith

key_of-note_opened :
    (m : Metadata) (a : TaskRunAccumulator) → key_of (note_opened m a).detail ≡ key_of a.detail
unfolding note_opened
key_of-note_opened m a = ground arith

key_of-note_filled :
    (m : Metadata) (a : TaskRunAccumulator) → key_of (note_filled m a).detail ≡ key_of a.detail
unfolding note_filled
key_of-note_filled m a = ground arith

key_of-note_task_event :
    (m : Metadata) (at : Text) (a : TaskRunAccumulator)
    → key_of (note_task_event m at a).detail ≡ key_of a.detail
unfolding note_task_event
key_of-note_task_event m at a =
    let b = note_first m at a in
    let c = note_latest m at b in
    let d = note_thread m c in
    key_of-note_filled m (note_opened m d)
    ∙ key_of-note_opened m d
    ∙ key_of-note_thread m c
    ∙ key_of-note_latest m at b
    ∙ key_of-note_first m at a

key_of-task_run_at :
    (m : Metadata) (at : Text) (by_key : Map TaskRunAccumulator)
    → IsKeyed by_key
    → key_of (task_run_at m at by_key).detail ≡ task_run_key m.task_id m.run_id
unfolding task_run_at new_task_run
key_of-task_run_at m at by_key h =
    elim (Option-cases (lookup (task_run_key m.task_id m.run_id) by_key)) [
      | inl q ↦ ground (arith, q)
      | inr (a, q) ↦
          let same : task_run_at m at by_key ≡ a = ground (arith, q) in
          ap (λ x. key_of x.detail) same ∙ h.1 (task_run_key m.task_id m.run_id) a q
    ]

insert-IsKeyed :
    (k : Text) (a : TaskRunAccumulator) (m : Map TaskRunAccumulator)
    → IsKeyed m
    → key_of a.detail ≡ k
    → IsKeyed (insert k a m)
insert-IsKeyed k a m h e = (
  insert-NodupKeys k a m h.0,
  λ j b q. elim (Bool-cases (k == j)) [
    | inl s ↦ ground (arith, lookup-insert k j a m, s, q, e, beq_iff k j)
    | inr s ↦ h.1 j b (ground (arith, lookup-insert k j a m, s, q))
  ],
)

on_task_payload-IsKeyed :
    (session_name : Text) (p : MailboxEventPayload) (at : Text) (s : TaskRunFold)
    → IsKeyed s.by_key
    → IsKeyed (on_task_payload session_name p at s).by_key
unfolding on_task_payload on_task_metadata
on_task_payload-IsKeyed session_name p at s h =
    let x = task_run_metadata_from_payload p in
    let m = simplified session_name x in
    elim (is_empty x.message_id || (is_empty x.task_id && is_empty x.run_id))
      as (λ b. IsKeyed (if b then s else on_task_metadata m at s).by_key) [
        | true ↦ h
        | false ↦
            insert-IsKeyed (task_run_key m.task_id m.run_id)
              (note_task_event m at (task_run_at m at s.by_key)) s.by_key h
              (key_of-note_task_event m at (task_run_at m at s.by_key)
                ∙ key_of-task_run_at m at s.by_key h)
      ]

key_of-finished : (a : TaskRunAccumulator) → key_of (finished_task_run a) ≡ key_of a.detail
unfolding finished_task_run
key_of-finished a = ground arith

-- how many tasks have a key
abbrev number_of : Text → List TaskRunDetail → ℕ
number_of k ts = count_if (λ t. key_of t == k) ts

number_of-insert :
    (k : Text) (t : TaskRunDetail) (ts : List TaskRunDetail)
    → number_of k (insert_task_run t ts) ≡ number_of k ts + (if key_of t == k then 1 else 0)
unfolding insert_task_run count_if
number_of-insert k t [] = ground arith
number_of-insert k t (u ∷ us) = ground (arith, number_of-insert k t us)

IsKeyed-tail :
    (j : Text) (a : TaskRunAccumulator) (m : Map TaskRunAccumulator)
    → IsKeyed ((j, a) ∷ m)
    → IsKeyed m
unfolding lookup
IsKeyed-tail j a m h = (
  h.0.1,
  λ k b q. elim (Bool-cases (j == k)) [
    | inl e ↦ absurd (ground (arith, h.0.0, q, e, beq_iff j k))
    | inr e ↦ h.1 k b (ground (arith, e, q))
  ],
)

number_of-finished :
    (k : Text) (m : Map TaskRunAccumulator)
    → IsKeyed m
    → number_of k (finished_task_runs m) ≡ (if has_key k m then 1 else 0)
unfolding finished_task_runs count_if lookup
number_of-finished k [] h = refl
number_of-finished k ((j, a) ∷ m) h =
    let head : key_of a.detail ≡ j = h.1 j a (ground (arith, beq_refl j)) in
    let here : key_of (finished_task_run a) ≡ j = key_of-finished a ∙ head in
    let rest = number_of-finished k m (IsKeyed-tail j a m h) in
    ground (
      arith,
      number_of-insert k (finished_task_run a) (finished_task_runs m),
      rest,
      ap (λ x. x == k) here,
      beq_iff j k,
      h.0.0,
    )

-- Equal ids have equal keys.
same_ids :
    (task_id run_id : Text) (t : TaskRunDetail)
    → (t.task_id == task_id && t.run_id == run_id) ≡ true
    → (key_of t == task_run_key task_id run_id) ≡ true
same_ids task_id run_id t h =
    let same_task : t.task_id ≡ task_id = ground (arith, h, beq_iff t.task_id task_id) in
    let same_run : t.run_id ≡ run_id = ground (arith, h, beq_iff t.run_id run_id) in
    (beq_iff (key_of t) (task_run_key task_id run_id)).1
      (ap (λ x. task_run_key x t.run_id) same_task ∙ ap (task_run_key task_id) same_run)

number_of_ids :
    (task_id run_id : Text) (ts : List TaskRunDetail)
    → count_if (λ t. t.task_id == task_id && t.run_id == run_id) ts
      ≤ number_of (task_run_key task_id run_id) ts
unfolding count_if
number_of_ids task_id run_id [] = omega arith
number_of_ids task_id run_id (t ∷ ts) =
    ground (arith, number_of_ids task_id run_id ts, same_ids task_id run_id t)

no_task_runs-IsKeyed : IsKeyed no_task_runs.by_key
unfolding no_task_runs lookup
no_task_runs-IsKeyed = (tt, λ k a h. absurd cc)

module _ {Raw : Type 0} (raw_is_empty : Raw → Bool)
    (unmarshal : Raw → Option MailboxEventPayload) where
  task_run_step-IsKeyed :
      (session_name : Text) (s s' : TaskRunFold) (e : Event Raw)
      → IsKeyed s.by_key
      → task_run_step raw_is_empty unmarshal session_name s e ≡ some s'
      → IsKeyed s'.by_key
  unfolding task_run_step
  task_run_step-IsKeyed session_name s s' e h q = elim (Bool-cases (is_task_event e.type)) [
    | inr t ↦ let same : s.by_key ≡ s'.by_key = ground (arith, q, t) in subst IsKeyed same h
    | inl t ↦ elim (Option-cases (decode_mailbox_event_payload raw_is_empty unmarshal e.payload)) [
      | inl d ↦ let same : s ≡ s' = ground (arith, q, t, d) in subst (λ x. IsKeyed x.by_key) same h
      | inr (p, d) ↦
          let same : on_task_payload session_name p e.occurred_at s ≡ s' =
            ground (arith, q, t, d) in
          subst (λ x. IsKeyed x.by_key) same
            (on_task_payload-IsKeyed session_name p e.occurred_at s h)
    ]
  ]

  -- A task and run id are reported at most once.
  pub project_task_run_state-Distinct :
      (session_file : Option SessionState) (session_name : Text)
      (records : List (CommittedRecord Raw)) (tasks : List TaskRunDetail) (task_id run_id : Text)
      → project_task_run_state raw_is_empty unmarshal session_file session_name records
        ≡ ok (some tasks)
      → count_if (λ t. t.task_id == task_id && t.run_id == run_id) tasks ≤ 1
  unfolding project_task_run_state
  project_task_run_state-Distinct session_file session_name records tasks task_id run_id h =
      elim (Option-cases (load_current_session_state session_file)) [
        | inl q ↦ absurd (ground (arith, h, q))
        | inr (state, q) ↦ elim (Result-cases (replay records)) [
          | inl (x, r) ↦ absurd (ground (arith, h, q, r))
          | inr (events, r) ↦
              let step = task_run_step raw_is_empty unmarshal session_name in
              elim (Option-cases (fold_current step state no_task_runs events)) [
                | inl g ↦ absurd (ground (arith, h, q, r, g))
                | inr (s, g) ↦
                    let keyed : IsKeyed s.by_key =
                      fold_current_keeps step (λ x. IsKeyed x.by_key)
                        (λ x y e k j. task_run_step-IsKeyed session_name x y e k j) state
                        no_task_runs s events no_task_runs-IsKeyed g in
                    let same : finished_task_runs s.by_key ≡ tasks = ground (arith, h, q, r, g) in
                    let one = number_of-finished (task_run_key task_id run_id) s.by_key keyed in
                    let few = number_of_ids task_id run_id (finished_task_runs s.by_key) in
                    let bound : count_if (λ t. t.task_id == task_id && t.run_id == run_id)
                          (finished_task_runs s.by_key)
                        ≤ 1 =
                      ground (arith, one, few) in
                    subst (λ ts. count_if (λ t. t.task_id == task_id && t.run_id == run_id) ts ≤ 1)
                      same bound
              ]
        ]
      ]
