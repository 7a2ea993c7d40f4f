-- ===== src/Status/Derivation/Worst.antt =====
-- The severity and the state of a session are the worst of its parts.
use tmux_a2a_postman.Base.{
  ◌≤◌, ◌≡◌, refl, Bool, true, arith, List, [], ◌∷◌, All, ◌⊎◌, inl, any, ltb, if◌then◌else◌, eqb,
}
use tmux_a2a_postman.Status.{
  State, initial, Severity, severity_rank, worse_severity, state_rank, normalize_state, NodeStatus,
  worst_state, session_visible_state, node_state,
}
use tmux_a2a_postman.Status.Derivation.{
  Verdict, DeliveryStatus, SessionStatus, session_verdict, add_delivery, add_nodes,
  apply_session_severity,
}

-- WorseSeverity is of the higher rank.
worse_severity-rank :
    (a b : Severity)
    → (severity_rank a ≤ severity_rank (worse_severity a b))
      × (severity_rank b ≤ severity_rank (worse_severity a b))
      × ((worse_severity a b ≡ a) ⊎ (worse_severity a b ≡ b))
unfolding worse_severity severity_rank
worse_severity-rank a b = ground arith

state_rank-normalize : (s : State) → state_rank (normalize_state s) ≡ state_rank s
unfolding state_rank normalize_state
state_rank-normalize s = ground arith

-- how a state compares with those of the nodes
abbrev BoundsStates : State → List NodeStatus → Type 0
BoundsStates w ns = All (λ n. state_rank (node_state n) ≤ state_rank w) ns

-- one turn of the loop
abbrev worse_state : State → NodeStatus → State
worse_state w n =
    if ltb (state_rank w) (state_rank (node_state n)) then normalize_state (node_state n) else w

worse_state-rank :
    (w : State) (n : NodeStatus)
    → (state_rank w ≤ state_rank (worse_state w n))
      × (state_rank (node_state n) ≤ state_rank (worse_state w n))
worse_state-rank w n = ground (arith, state_rank-normalize (node_state n))

worst_state_rises :
    (w : State) (ns : List NodeStatus) → state_rank w ≤ state_rank (worst_state w ns)
unfolding worst_state
worst_state_rises w [] = omega arith
worst_state_rises w (n ∷ ns) =
    omega (arith, worst_state_rises (worse_state w n) ns, (worse_state-rank w n).0)

worst_state_bounds : (w : State) (ns : List NodeStatus) → BoundsStates (worst_state w ns) ns
unfolding worst_state
worst_state_bounds w [] = tt
worst_state_bounds w (n ∷ ns) = (
  omega (arith, worst_state_rises (worse_state w n) ns, (worse_state-rank w n).1),
  worst_state_bounds (worse_state w n) ns,
)

-- some node has the rank of a state
abbrev pub has_state_rank : State → List NodeStatus → Bool
has_state_rank s ns = any (λ n. eqb (state_rank (node_state n)) (state_rank s)) ns

worst_state_attained :
    (w : State) (ns : List NodeStatus)
    → (worst_state w ns ≡ w) ⊎ (has_state_rank (worst_state w ns) ns ≡ true)
unfolding worst_state any
worst_state_attained w [] = inl refl
worst_state_attained w (n ∷ ns) = ground (
  arith,
  worst_state_attained w ns,
  worst_state_attained (normalize_state (node_state n)) ns,
  state_rank-normalize (node_state n),
)

-- The visible state of a session ranks at least as high as that of each of its nodes, and it is
-- "initial" or has the rank of some node.
pub session_visible_state_worst :
    (ns : List NodeStatus)
    → All (λ n. state_rank (node_state n) ≤ state_rank (session_visible_state ns)) ns
      × ((session_visible_state ns ≡ initial)
          ⊎ (has_state_rank (session_visible_state ns) ns ≡ true))
unfolding session_visible_state
session_visible_state_worst ns = (worst_state_bounds initial ns, worst_state_attained initial ns)

-- one turn of the loop over the nodes
abbrev worse_verdict : Verdict → NodeStatus → Verdict
worse_verdict v n =
    if ltb (severity_rank v.severity) (severity_rank n.severity)
    then record { severity = n.severity; source = n.severity_source; reason = n.severity_reason }
    else v

worse_verdict-rank :
    (v : Verdict) (n : NodeStatus)
    → (severity_rank v.severity ≤ severity_rank (worse_verdict v n).severity)
      × (severity_rank n.severity ≤ severity_rank (worse_verdict v n).severity)
worse_verdict-rank v n = ground arith

add_nodes_rises :
    (v : Verdict) (ns : List NodeStatus)
    → severity_rank v.severity ≤ severity_rank (add_nodes v ns).severity
unfolding add_nodes
add_nodes_rises v [] = omega arith
add_nodes_rises v (n ∷ ns) =
    omega (arith, add_nodes_rises (worse_verdict v n) ns, (worse_verdict-rank v n).0)

add_nodes_bounds :
    (v : Verdict) (ns : List NodeStatus)
    → All (λ n. severity_rank n.severity ≤ severity_rank (add_nodes v ns).severity) ns
unfolding add_nodes
add_nodes_bounds v [] = tt
add_nodes_bounds v (n ∷ ns) = (
  omega (arith, add_nodes_rises (worse_verdict v n) ns, (worse_verdict-rank v n).1),
  add_nodes_bounds (worse_verdict v n) ns,
)

-- some node has a severity and is where it comes from
abbrev pub has_severity : Verdict → List NodeStatus → Bool
has_severity v ns = any (λ n. eqb (severity_rank n.severity) (severity_rank v.severity)) ns

add_nodes_attained :
    (v : Verdict) (ns : List NodeStatus)
    → (add_nodes v ns ≡ v) ⊎ (has_severity (add_nodes v ns) ns ≡ true)
unfolding add_nodes any
add_nodes_attained v [] = inl refl
add_nodes_attained v (n ∷ ns) = ground (
  arith,
  add_nodes_attained v ns,
  add_nodes_attained
      record { severity = n.severity; source = n.severity_source; reason = n.severity_reason } ns,
)

add_delivery-rank :
    (d : DeliveryStatus) (v : Verdict)
    → (severity_rank v.severity ≤ severity_rank (add_delivery d v).severity)
      × (severity_rank d.severity ≤ severity_rank (add_delivery d v).severity)
      × (((add_delivery d v).severity ≡ v.severity) ⊎ ((add_delivery d v).severity ≡ d.severity))
unfolding add_delivery
add_delivery-rank d v = ground (arith, worse_severity-rank v.severity d.severity)

-- The severity of a session ranks at least as high as that of its own state, of its delivery and of
-- each of its nodes, and it has the rank of one of them.
pub apply_session_severity_worst :
    (h : SessionStatus)
    → let worst = (apply_session_severity h).verdict in
      (severity_rank (session_verdict h.visible_state).severity ≤ severity_rank worst.severity)
      × (severity_rank h.delivery.severity ≤ severity_rank worst.severity)
      × All (λ n. severity_rank n.severity ≤ severity_rank worst.severity) h.nodes
      × ((worst.severity ≡ (session_verdict h.visible_state).severity)
          ⊎ ((worst.severity ≡ h.delivery.severity) ⊎ (has_severity worst h.nodes ≡ true)))
unfolding apply_session_severity
apply_session_severity_worst h =
    let v = session_verdict h.visible_state in
    let w = add_delivery h.delivery v in
    let (own, delivery, from) = add_delivery-rank h.delivery v in
    (
      omega (arith, add_nodes_rises w h.nodes, own),
      omega (arith, add_nodes_rises w h.nodes, delivery),
      add_nodes_bounds w h.nodes,
      ground (arith, add_nodes_attained w h.nodes, from),
    )
