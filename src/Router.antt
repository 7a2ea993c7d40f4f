-- ===== src/Router.antt =====
-- Address resolution: internal/router/router.go, with the two callers that fix its arguments,
-- ResolveNodeName of internal/discovery/discovery.go and resolveRuntimeNode of
-- internal/message/message.go.
pub mod Laws
use tmux_a2a_postman.Base.{
  ℕ, ◌≡◌, refl, Bool, true, false, not, ◌&&◌, ◌||◌, Option, none, some, List, [], ◌∷◌, ◌++◌,
  if◌then◌else◌, Text, ◌==◌, Map, has_key, is_empty, any,
}
use tmux_a2a_postman.Address.{split, full}

pub data FailureReason : Type 0 where
  failure_none unknown_node unknown_session : FailureReason

pub record Resolution : Type 0 where
  pub address : Text
  pub session_name : Text
  pub node_name : Text
  pub explicit_session : Bool
  pub found : Bool
  pub failure_reason : FailureReason

-- ExistsFunc; `none` is a nil function
abbrev pub ExistsFunc : Type 0
ExistsFunc = Option (Text → Bool)

-- f != nil && f(key)
abbrev pub holds_at : ExistsFunc → Text → Bool
holds_at none key = false
holds_at (some f) key = f key

-- f != nil && !f(key)
abbrev pub refuted_at : ExistsFunc → Text → Bool
refuted_at none key = false
refuted_at (some f) key = not (f key)

unfoldable pub resolve : Text → Text → ExistsFunc → ExistsFunc → Resolution
resolve address source_session_name node_exists session_exists =
    let p = split address in
    let explicit : Resolution = record {
      address = address;
      session_name = p.session_name;
      node_name = p.node_name;
      explicit_session = true;
      found = false;
      failure_reason = failure_none;
    } in
    let full_address = full address source_session_name in
    let scoped : Resolution = record {
      address = full_address;
      session_name = source_session_name;
      node_name = p.node_name;
      explicit_session = false;
      found = false;
      failure_reason = failure_none;
    } in
    if p.has_session
    then if holds_at node_exists address
      then record explicit { found = true }
      else if refuted_at session_exists p.session_name
      then record explicit { failure_reason = unknown_session }
      else record explicit { failure_reason = unknown_node }
    else if holds_at node_exists full_address
    then record scoped { found = true }
    else record scoped { failure_reason = unknown_node }

pub record NodeInfo : Type 0 where
  pub pane_id : Text
  pub session_name : Text
  pub session_dir : Text

-- discovery.ResolveNodeName; the empty text stands for "not found"
unfoldable pub resolve_node_name : Text → Text → Map NodeInfo → Text
unfolding resolve
resolve_node_name node_name source_session_name known_nodes =
    let resolution =
      resolve node_name source_session_name (some (λ key. has_key key known_nodes)) none in
    if resolution.found then resolution.address else []

-- whether a session is the source session or that of a known node
unfoldable pub is_known_session : Text → Map NodeInfo → Text → Bool
is_known_session source_session_name known_nodes name =
    (source_session_name == name)
    || any
        (λ (n : Text × NodeInfo). not (is_empty (n.1).session_name) && ((n.1).session_name == name))
        known_nodes

-- message.resolveRuntimeNode
unfoldable pub resolve_runtime_node : Text → Text → Map NodeInfo → Resolution
unfolding resolve is_known_session
resolve_runtime_node address source_session_name known_nodes =
    resolve address source_session_name (some (λ key. has_key key known_nodes))
      (some (is_known_session source_session_name known_nodes))
