-- ===== src/Workspace/Alias.antt =====
-- Aliases of the workspace tree: parseAlias, ResolveAlias and RelationshipAlias of
-- internal/workspacetree/workspacetree.go.
use tmux_a2a_postman.Base.{
  filter, Bool, true, false, not, ◌||◌, Option, none, some, Text, List, [], ◌∷◌, ◌++◌, ◌==◌,
  is_empty, if◌then◌else◌, Result, ok, err, codes, trim_space, has_prefix, drop_length, split_slash,
}
use tmux_a2a_postman.Address.{split, full, validate_node_name}
use tmux_a2a_postman.Router.{ExistsFunc, refuted_at}
use tmux_a2a_postman.Workspace.{
  AliasFailure, not_alias, invalid_alias, no_child, ambiguous_child, Node, Topology,
  node_for_session, nearest_parent, nearest_children,
}
use tmux_a2a_postman.Workspace

abbrev pub parent_alias : Text
parent_alias = codes "@parent"

abbrev pub child_alias_prefix : Text
child_alias_prefix = codes "@child/"

abbrev pub parent_alias_prefix : Text
parent_alias_prefix = codes "@parent/"

-- parsedAlias.kind
pub data AliasKind : Type 0 where
  parent_kind child_kind : AliasKind

pub record ParsedAlias : Type 0 where
  pub kind : AliasKind
  pub selector : Text
  pub node_name : Text

pub record AliasResolution : Type 0 where
  pub address : Text
  pub session_name : Text
  pub node_name : Text
  pub kind : Option AliasKind
  pub selector : Text
  pub found : Bool
  pub failure : Option AliasFailure

unfoldable pub parsed_child : List Text → Option ParsedAlias
unfolding validate_node_name trim_space
parsed_child (x ∷ []) =
    if is_empty (trim_space x)
    then none
    else if validate_node_name x
    then some (record { kind = child_kind; selector = x; node_name = [] })
    else none
parsed_child (x ∷ y ∷ []) =
    if is_empty (trim_space x)
    then none
    else if validate_node_name y
    then some (record { kind = child_kind; selector = x; node_name = y })
    else none
parsed_child _ = none

unfoldable pub parsed_parent : Text → Option ParsedAlias
unfolding validate_node_name
parsed_parent name =
    if validate_node_name name
    then some (record { kind = parent_kind; selector = []; node_name = name })
    else none

-- `none` is an error.
unfoldable pub parse_alias : Text → Option ParsedAlias
unfolding parsed_parent parsed_child has_prefix drop_length split_slash
parse_alias alias =
    if alias == parent_alias
    then some (record { kind = parent_kind; selector = []; node_name = [] })
    else if has_prefix parent_alias_prefix alias
    then parsed_parent (drop_length parent_alias_prefix alias)
    else if has_prefix child_alias_prefix alias
    then parsed_child (split_slash (drop_length child_alias_prefix alias))
    else none

abbrev pub is_alias : Text → Bool
is_alias address = has_prefix (codes "@") address

abbrev pub is_selected : Text → Node → Bool
is_selected selector child =
    child.label == selector || (child.session_name == selector || child.id == selector)

unfoldable pub select_children : List Node → Text → List Node
unfolding filter
select_children children selector =
    if is_empty selector then children else filter (is_selected selector) children

unfoldable pub alias_failed : Option ParsedAlias → AliasFailure → AliasResolution
alias_failed none e = record {
  address = [];
  session_name = [];
  node_name = [];
  kind = none;
  selector = [];
  found = false;
  failure = some e;
}
alias_failed (some p) e = record {
  address = [];
  session_name = [];
  node_name = p.node_name;
  kind = some p.kind;
  selector = p.selector;
  found = false;
  failure = some e;
}

-- The end of `ResolveAlias`, at the node of the target session
unfoldable pub at_target : ParsedAlias → Node → ExistsFunc → AliasResolution
unfolding full
at_target p target node_exists =
    let name = (if is_empty p.node_name then target.representative else p.node_name) in
    let refused : AliasResolution = record {
      address = if is_empty name then [] else full name target.session_name;
      session_name = target.session_name;
      node_name = name;
      kind = some p.kind;
      selector = p.selector;
      found = false;
      failure = some Workspace.unknown_node;
    } in
    if is_empty name
    then refused
    else if refuted_at node_exists (full name target.session_name)
    then refused
    else record {
      address = full name target.session_name;
      session_name = target.session_name;
      node_name = name;
      kind = some p.kind;
      selector = p.selector;
      found = true;
      failure = none;
    }

-- A selector that no child has, in an alias without a node, is the node of the only child.
unfoldable pub select_only_child :
    ParsedAlias → List Node → Result AliasFailure (ParsedAlias × Node)
select_only_child p [] = err no_child
select_only_child p (n ∷ []) =
    ok (record { kind = p.kind; selector = []; node_name = p.selector }, n)
select_only_child p (n ∷ n' ∷ ns) = err ambiguous_child

-- The children that match, and all children
unfoldable pub select_match :
    ParsedAlias → List Node → List Node → Result AliasFailure (ParsedAlias × Node)
unfolding select_only_child
select_match p [] children =
    if is_empty p.node_name then select_only_child p children else err no_child
select_match p (n ∷ []) children = ok (p, n)
select_match p (n ∷ n' ∷ ns) children = err ambiguous_child

-- The child that an alias selects, with the alias as it is read in the end
unfoldable pub select_target : ParsedAlias → List Node → Result AliasFailure (ParsedAlias × Node)
unfolding select_children select_match
select_target p children = select_match p (select_children children p.selector) children

unfoldable pub resolve_parsed : ParsedAlias → Text → ExistsFunc → Topology → AliasResolution
unfolding alias_failed at_target select_target
resolve_parsed p source node_exists t = elim p.kind [
  | parent_kind ↦ elim (nearest_parent source t) [
    | err e ↦ alias_failed (some p) e
    | ok target ↦ at_target p target node_exists
  ]
  | child_kind ↦ elim (nearest_children source t) [
    | err e ↦ alias_failed (some p) e
    | ok children ↦ elim (select_target p children) [
      | err e ↦ alias_failed (some p) e
      | ok (q, target) ↦ at_target q target node_exists
    ]
  ]
]

unfoldable pub resolve_alias : Text → Text → ExistsFunc → Topology → AliasResolution
unfolding parse_alias
resolve_alias alias source node_exists t = elim (parse_alias alias) [
  | none ↦ alias_failed none (if is_alias alias then invalid_alias else not_alias)
  | some p ↦ resolve_parsed p source node_exists t
]

-- The alias of a target whose two sessions are registered
unfoldable pub alias_between : Node → Node → Text → Option Text
alias_between view target target_node =
    if is_empty target.representative || not (target_node == target.representative)
    then none
    else if view.parent_session_name == target.session_name
    then some parent_alias
    else if target.parent_session_name == view.session_name
    then some (child_alias_prefix ++ target.label)
    else none

unfoldable pub relationship_alias : Text → Text → Topology → Option Text
unfolding split alias_between
relationship_alias viewpoint target t =
    let v = split viewpoint in
    let w = split target in
    if not v.has_session || not w.has_session
    then none
    else elim (node_for_session v.session_name t) [
      | err e ↦ none
      | ok view ↦ elim (node_for_session w.session_name t) [
        | err e ↦ none
        | ok node ↦ alias_between view node w.node_name
      ]
    ]
