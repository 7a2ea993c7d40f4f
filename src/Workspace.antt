-- ===== src/Workspace.antt =====
-- The workspace tree: internal/workspacetree/workspacetree.go. Each session has a parent session, and
-- aliases name the parent or a child. The maps hold the nodes in place of their indices: a node is
-- never changed once it is appended.
pub mod Alias
pub mod Built
pub mod Resolving
pub mod Parsed
pub mod Selecting
pub mod Targets
pub mod Labels
pub mod Siblings
pub mod Offered
pub mod Tests
use tmux_a2a_postman.Base.{
  insert_text, ℤ, int_eq, int_lt, Bool, true, false, not, ◌&&◌, ◌||◌, Option, none, some, Text,
  List, [], ◌∷◌, ◌++◌, ◌==◌, is_empty, if◌then◌else◌, Map, lookup, insert, text_lt, Result, ok, err,
  map, codes, trim_space, ltb, any, length,
}

-- FailureReason; FailureNone is no failure
pub data AliasFailure : Type 0 where
  not_alias invalid_alias unknown_source_session ambiguous_hierarchy unknown_parent no_parent
        no_child ambiguous_child unknown_node :
      AliasFailure

pub record Registration : Type 0 where
  pub session_name : Text
  pub id : Text
  pub label : Text
  pub parent_session_name : Text
  pub representative : Text
  pub order : ℤ

pub record Node : Type 0 where
  pub session_name : Text
  pub id : Text
  pub label : Text
  pub parent_session_name : Text
  pub representative : Text
  pub order : ℤ

-- Without the message, which its code fixes
pub record Diagnostic : Type 0 where
  pub code_name : Text
  pub id : Text
  pub ids : List Text
  pub session_name : Text
  pub parent_session_name : Text
  pub labels : List Text

pub record Topology : Type 0 where
  pub nodes : List Node
  pub by_session : Map (List Node)
  pub children_by_parent : Map (List Node)
  pub diagnostics : List Diagnostic

unfoldable pub empty_topology : Topology
empty_topology = record { nodes = []; by_session = []; children_by_parent = []; diagnostics = [] }

abbrev pub slice : Option (List Node) → List Node
slice none = []
slice (some ns) = ns

-- m[key], with nil for a missing key
abbrev pub slice_at : Text → Map (List Node) → List Node
slice_at key m = slice (lookup key m)

-- m[key] = append(m[key], n)
unfoldable pub append_at : Text → Node → Map (List Node) → Map (List Node)
append_at key n m = insert key (slice_at key m ++ n ∷ []) m

abbrev pub or_default : Text → Text → Text
or_default s default = if is_empty s then default else s

-- The node of a registration with a session name
unfoldable pub node_of : Registration → Node
unfolding trim_space
node_of r =
    let session = trim_space r.session_name in
    record {
      session_name = session;
      id = or_default (trim_space r.id) session;
      label = or_default (trim_space r.label) session;
      parent_session_name = trim_space r.parent_session_name;
      representative = trim_space r.representative;
      order = r.order;
    }

unfoldable pub add_node : Node → Topology → Topology
add_node n t = record {
  nodes = t.nodes ++ n ∷ [];
  by_session = append_at n.session_name n t.by_session;
  children_by_parent =
      if is_empty n.parent_session_name
      then t.children_by_parent
      else append_at n.parent_session_name n t.children_by_parent;
  diagnostics = t.diagnostics;
}

-- One turn of the loop of `Build`
unfoldable pub add_registration : Registration → Topology → Topology
add_registration r t = if is_empty (node_of r).session_name then t else add_node (node_of r) t

unfoldable pub add_registrations : List Registration → Topology → Topology
add_registrations [] t = t
add_registrations (r ∷ rs) t = add_registrations rs (add_registration r t)

-- sort.Strings after the duplicates and the empty values are dropped: equal texts cannot be told apart
unfoldable pub sorted_unique : List Text → List Text
sorted_unique [] = []
sorted_unique (x ∷ xs) =
    let rest = sorted_unique xs in
    if is_empty x || any (λ y. y == x) rest then rest else insert_text x rest

unfoldable pub duplicate_session : Text → List Node → Diagnostic
unfolding sorted_unique
duplicate_session session ns = record {
  code_name = codes "duplicate_session";
  id = [];
  ids = sorted_unique (map (λ x. x.id) ns);
  session_name = session;
  parent_session_name = [];
  labels = sorted_unique (map (λ x. x.label) ns);
}

-- The diagnostics of the entries of bySession; the order of a Go map does not matter after the sort.
unfoldable pub record_duplicate_sessions : Map (List Node) → List Diagnostic
record_duplicate_sessions [] = []
record_duplicate_sessions ((session, ns) ∷ m) =
    let rest = record_duplicate_sessions m in
    if ltb (length ns) 2 then rest else duplicate_session session ns ∷ rest

abbrev pub is_none_at : Text → Map (List Node) → Bool
is_none_at key m = elim (slice_at key m) [ [] ↦ true | n ∷ ns ↦ false ]

unfoldable pub record_unknown_parents : Map (List Node) → List Node → List Diagnostic
record_unknown_parents m [] = []
record_unknown_parents m (n ∷ ns) =
    let rest = record_unknown_parents m ns in
    if is_empty n.parent_session_name
    then rest
    else if is_none_at n.parent_session_name m
    then record {
      code_name = codes "unknown_parent";
      id = n.id;
      ids = [];
      session_name = n.session_name;
      parent_session_name = n.parent_session_name;
      labels = [];
    }
      ∷ rest
    else rest

unfoldable pub diagnostic_lt : Diagnostic → Diagnostic → Bool
diagnostic_lt a b =
    if not (a.code_name == b.code_name)
    then text_lt a.code_name b.code_name
    else if not (a.session_name == b.session_name)
    then text_lt a.session_name b.session_name
    else text_lt a.id b.id

unfoldable pub insert_diagnostic : Diagnostic → List Diagnostic → List Diagnostic
insert_diagnostic d [] = d ∷ []
insert_diagnostic d (x ∷ xs) =
    let rest = insert_diagnostic d xs in if diagnostic_lt x d then x ∷ rest else d ∷ x ∷ xs

-- sort.Slice, which leaves open how diagnostics that its test does not tell apart are ordered
unfoldable pub sort_diagnostics : List Diagnostic → List Diagnostic
sort_diagnostics [] = []
sort_diagnostics (d ∷ ds) = insert_diagnostic d (sort_diagnostics ds)

unfoldable pub with_diagnostics : Topology → Topology
with_diagnostics t = record {
  nodes = t.nodes;
  by_session = t.by_session;
  children_by_parent = t.children_by_parent;
  diagnostics =
      sort_diagnostics
        (record_duplicate_sessions t.by_session ++ record_unknown_parents t.by_session t.nodes);
}

unfoldable pub build : List Registration → Topology
build registrations = with_diagnostics (add_registrations registrations empty_topology)

-- What `NodeForSession` makes of the nodes of a session
unfoldable pub only_node : List Node → Result AliasFailure Node
only_node [] = err unknown_source_session
only_node (n ∷ []) = ok n
only_node (n ∷ n' ∷ ns) = err ambiguous_hierarchy

unfoldable pub node_for_session : Text → Topology → Result AliasFailure Node
unfolding only_node
node_for_session session t = only_node (slice_at session t.by_session)

abbrev pub as_parent : AliasFailure → AliasFailure
as_parent unknown_source_session = unknown_parent
as_parent e = e

unfoldable pub nearest_parent : Text → Topology → Result AliasFailure Node
nearest_parent session t = elim (node_for_session session t) [
  | err e ↦ err e
  | ok source ↦
      if is_empty source.parent_session_name
      then err no_parent
      else elim (node_for_session source.parent_session_name t) [
        | err e ↦ err (as_parent e)
        | ok p ↦ ok p
      ]
]

unfoldable pub node_lt : Node → Node → Bool
node_lt a b =
    if not (int_eq a.order b.order)
    then int_lt a.order b.order
    else if not (a.label == b.label)
    then text_lt a.label b.label
    else if not (a.session_name == b.session_name)
    then text_lt a.session_name b.session_name
    else text_lt a.id b.id

unfoldable pub insert_node : Node → List Node → List Node
insert_node n [] = n ∷ []
insert_node n (x ∷ xs) = let rest = insert_node n xs in if node_lt x n then x ∷ rest else n ∷ x ∷ xs

-- sort.Slice, which leaves open how nodes that its test does not tell apart are ordered
unfoldable pub sort_nodes : List Node → List Node
sort_nodes [] = []
sort_nodes (n ∷ ns) = insert_node n (sort_nodes ns)

-- The loop of `NearestChildren`: every child's session must be registered once.
unfoldable pub collect_children : Topology → List Node → Result AliasFailure (List Node)
collect_children t [] = ok []
collect_children t (n ∷ ns) =
    let rest = collect_children t ns in
    elim (node_for_session n.session_name t) [
      | err e ↦ err e
      | ok x ↦ elim rest [ err e ↦ err e | ok xs ↦ ok (n ∷ xs) ]
    ]

unfoldable pub nearest_children : Text → Topology → Result AliasFailure (List Node)
nearest_children session t = elim (node_for_session session t) [
  | err e ↦ err e
  | ok source ↦ elim (collect_children t (slice_at session t.children_by_parent)) [
    | err e ↦ err e
    | ok children ↦ ok (sort_nodes children)
  ]
]
