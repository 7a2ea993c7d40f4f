-- ===== src/Workspace/Targets.antt =====
-- The node that an alias resolves to: ResolveAlias of internal/workspacetree/workspacetree.go.
use tmux_a2a_postman.Base.{ok, ◌≡◌, Text, [], ◌∷◌, ◌++◌, true, false, is_empty, if◌then◌else◌}
use tmux_a2a_postman.Router.{ExistsFunc, refuted_at}
use tmux_a2a_postman.Address.{full}
use tmux_a2a_postman.Workspace.{Node, Topology, nearest_children}
use tmux_a2a_postman.Workspace.Built.{IsIndexed}
use tmux_a2a_postman.Workspace.Resolving.{IsOnly}
use tmux_a2a_postman.Workspace.Alias.{
  ParsedAlias, AliasResolution, is_selected, parent_alias, parent_alias_prefix, child_alias_prefix,
}

-- the target is the only node of the session that the only node of the source's session has as parent
abbrev pub IsParent : Topology → Text → Node → Type 0
IsParent t s target =
    IsOnly t target.session_name target
    × ((source : Node) × IsOnly t s source × (source.parent_session_name ≡ target.session_name))

-- the target is the only node of its session and names the source's session as its parent
abbrev pub IsChild : Topology → Text → Node → Type 0
IsChild t s target = IsOnly t target.session_name target × (target.parent_session_name ≡ s)

-- What each form of an alias means: the target session's node, and the name of the node there
pub data Leads (t : Topology) (s alias : Text) (target : Node) (name : Text) : Type 0 where
  to_parent :
      alias ≡ parent_alias
      → IsParent t s target
      → name ≡ target.representative
      → Leads t s alias target name
  to_parent_node :
      alias ≡ parent_alias_prefix ++ name → IsParent t s target → Leads t s alias target name
  to_child :
      (label : Text)
      → alias ≡ child_alias_prefix ++ label
      → IsChild t s target
      → is_selected label target ≡ true
      → name ≡ target.representative
      → Leads t s alias target name
  to_only_child :
      alias ≡ child_alias_prefix ++ name
      → IsChild t s target
      → nearest_children s t ≡ ok (target ∷ [])
      → is_selected name target ≡ false
      → Leads t s alias target name
  to_child_node :
      (label : Text)
      → alias ≡ child_alias_prefix ++ (label ++ (b'/' ∷ name))
      → IsChild t s target
      → is_selected label target ≡ true
      → Leads t s alias target name

-- the resolution names a node of the target's session, by an address that the node predicate does not
-- refuse
abbrev pub IsAt : ExistsFunc → AliasResolution → Node → Type 0
IsAt exists r target =
    (r.session_name ≡ target.session_name)
    × (r.address ≡ full r.node_name target.session_name)
    × (refuted_at exists r.address ≡ false)

abbrev name_in : ParsedAlias → Node → Text
name_in p target = if is_empty p.node_name then target.representative else p.node_name

module _ (t : Topology) (indexed : IsIndexed t) (s : Text) (exists : ExistsFunc) where
  -- the resolution leads to a target as the alias says
  abbrev IsLed : Text → AliasResolution → Type 0
  IsLed alias r = (target : Node) × Leads t s alias target r.node_name × IsAt exists r target
