-- ===== src/Projection/AutoPing/Laws.antt =====
-- What the automatic pings' projection shows of a node.
use tmux_a2a_postman.Base.{
  beq_refl, true, false, Option, none, some, Text, List, [], ◌∷◌, ◌≡◌, refl, inl, inr, arith,
  beq_iff, lookup, lookup-insert, Option-cases, ◌==◌, Map, if◌then◌else◌,
}
use tmux_a2a_postman.Journal.{Event, SessionState, auto_ping_pending, auto_ping_delivered}
use tmux_a2a_postman.Projection.{is_current, fold_current}
use tmux_a2a_postman.Projection.Folds.{newest_first, fold_current_history}
use tmux_a2a_postman.Projection.AutoPing.{
  AutoPingPayload, AutoPingNode, AutoPingFold, no_pings, record_ping, auto_ping_step,
  current_pending_identity, identity_from_pending, matches_pending, WakeIdentity,
}

module _ {Raw : Type 0} (unmarshal : Raw → Option AutoPingPayload) (state : SessionState) where
  -- what one event says of a node
  unfoldable pub told : Text → Event Raw → Option AutoPingNode
  told k e = elim e.type [
    | auto_ping_pending ↦ elim (unmarshal e.payload) [
      | none ↦ none
      | some p ↦ if p.node_key == k then some (record { payload = p; pending = true }) else none
    ]
    | auto_ping_delivered ↦ elim (unmarshal e.payload) [
      | none ↦ none
      | some p ↦ if p.node_key == k then some (record { payload = p; pending = false }) else none
    ]
    | _ ↦ none
  ]

  -- what the newest event of the current session that names a node says of it
  unfoldable pub last_told : Text → List (Event Raw) → Option AutoPingNode
  last_told k [] = none
  last_told k (e ∷ h) =
      let rest = last_told k h in
      elim (if is_current state e then told k e else none) [ none ↦ rest | some n ↦ some n ]

  abbrev Tells : List (Event Raw) → AutoPingFold → Type 0
  Tells h s = (k : Text) → lookup k s.nodes ≡ last_told k h

  step-Tells :
      (h : List (Event Raw)) (s s' : AutoPingFold) (e : Event Raw)
      → is_current state e ≡ true
      → Tells h s
      → auto_ping_step unmarshal s e ≡ some s'
      → Tells (e ∷ h) s'
  unfolding auto_ping_step record_ping last_told told
  step-Tells h s s' e c t eq k = elim (Option-cases (unmarshal e.payload)) [
    | inl n ↦ ground (arith, t k)
    | inr (p, q) ↦ ground (
      arith,
      t k,
      beq_iff p.node_key k,
      lookup-insert p.node_key k record { payload = p; pending = true } s.nodes,
      lookup-insert p.node_key k record { payload = p; pending = false } s.nodes,
    )
  ]

  skip-Tells :
      (h : List (Event Raw)) (s : AutoPingFold) (e : Event Raw)
      → is_current state e ≡ false
      → Tells h s
      → Tells (e ∷ h) s
  unfolding last_told
  skip-Tells h s e c t k = ground (arith, t k)

  no_pings-Tells : Tells [] no_pings
  unfolding no_pings lookup last_told
  no_pings-Tells k = refl

  -- What the projection's loop holds of a node in the end is what the newest event of the current
  -- session that names the node says of it: pending or delivered, with that event's payload.
  pub auto_ping_newest_wins :
      (s : AutoPingFold) (events : List (Event Raw)) (k : Text)
      → fold_current (auto_ping_step unmarshal) state no_pings events ≡ some s
      → lookup k s.nodes ≡ last_told k (newest_first events [])
  auto_ping_newest_wins s events k eq =
      fold_current_history (auto_ping_step unmarshal) state Tells step-Tells skip-Tells [] no_pings
        s events no_pings-Tells eq k

-- A wake identity that is current matches the pending node that it was made of.
current_identity_matches :
    (dir key pane : Text) (nodes : Map AutoPingNode) (i : WakeIdentity)
    → current_pending_identity dir key pane (some nodes) ≡ some i
    → (n : AutoPingNode) × (lookup key nodes ≡ some n)
      × (matches_pending i n ≡ true)
      × (i.pane_id ≡ pane)
unfolding current_pending_identity identity_from_pending matches_pending
current_identity_matches dir key pane nodes i e = elim (Option-cases (lookup key nodes)) [
  | inl n ↦ ground arith
  | inr (n, q) ↦ (
    n,
    q,
    ground (
      arith,
      beq_refl n.payload.pane_id,
      beq_refl n.payload.reason,
      beq_refl n.payload.triggered_at,
      beq_refl n.payload.not_before_at,
    ),
    ground (arith, beq_iff n.payload.pane_id pane),
  )
]
