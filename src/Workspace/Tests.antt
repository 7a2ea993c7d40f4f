-- ===== src/Workspace/Tests.antt =====
-- The workspace tree on concrete registrations.
use tmux_a2a_postman.Base.{
  lookup, insert, ◌==◌, filter, split_slash, drop_length, has_prefix, trim_left_rev, trim_left,
  is_space, is_space2, is_space3, text_lt, text_lt, is_space3, is_space2, is_space, trim_left,
  trim_left_rev, ◌≡◌, refl, none, some, Text, List, [], ◌∷◌, codes, pos, map, trim_space, length,
  lookup, insert, filter, ◌==◌, split_slash, has_prefix, drop_length,
}
use tmux_a2a_postman.Address.{cut_colon, split, cut_colon}
use tmux_a2a_postman.Workspace.{Registration, build, node_of, add_registrations}
use tmux_a2a_postman.Workspace
use tmux_a2a_postman.Workspace.Alias.{
  resolve_parsed, resolve_parsed, alias_failed, resolve_alias, relationship_alias,
}
use tmux_a2a_postman.Workspace.Offered.{IsReturned, relationship_alias-IsReturned}

abbrev main : Registration
main = record {
  session_name = codes " main ";
  id = [];
  label = codes "root";
  parent_session_name = [];
  representative = codes "boss";
  order = pos 0;
}

abbrev child : Text → Text → Registration
child session label = record {
  session_name = session;
  id = [];
  label = label;
  parent_session_name = codes "main";
  representative = codes "worker";
  order = pos 0;
}

abbrev tree : List Registration
tree = main ∷ child (codes "lab_two") (codes "two") ∷ child (codes "lab") (codes "one") ∷ []

offers_child :
    relationship_alias (codes "main:boss") (codes "lab:worker") (build tree)
    ≡ some (codes "@child/one")
unfolding build node_of resolve_alias relationship_alias add_registrations trim_space cut_colon
    Workspace.node_for_session lookup Workspace.with_diagnostics Workspace.add_registration
    trim_left_rev trim_left is_space is_space2 is_space3 Workspace.add_node Workspace.append_at
    insert Workspace.empty_topology ◌==◌
offers_child = refl

-- A child without a label gets its session's name, which an alias may not be able to spell.
unspeakable_label :
    relationship_alias
      (codes "main:boss")
      (codes "lab_two:worker")
      (build (main ∷ child (codes "lab_two") [] ∷ []))
    ≡ some (codes "@child/lab_two")
unfolding build node_of resolve_alias relationship_alias add_registrations trim_space cut_colon
    Workspace.node_for_session lookup Workspace.with_diagnostics Workspace.add_registration
    trim_left_rev trim_left is_space is_space2 is_space3 Workspace.add_node Workspace.append_at
    insert Workspace.empty_topology ◌==◌
unspeakable_label = refl

unspeakable_fails :
    (resolve_alias
      (codes "@child/lab_two")
      (codes "main")
      none
      (build (main ∷ child (codes "lab_two") [] ∷ []))).failure
    ≡ some Workspace.invalid_alias
unfolding build node_of resolve_alias relationship_alias add_registrations trim_space ◌==◌
    trim_left_rev trim_left is_space is_space2 is_space3 alias_failed
unspeakable_fails = refl

-- The name of the only child's node may stand in place of a selector.
only_child_node :
    (resolve_alias
      (codes "@child/cook")
      (codes "main")
      none
      (build (main ∷ child (codes "lab") [] ∷ []))).address
    ≡ codes "lab:cook"
unfolding build node_of add_registrations trim_space lookup insert ◌==◌ trim_left_rev trim_left
    is_space is_space2 is_space3 text_lt Workspace.with_diagnostics Workspace.sort_diagnostics
    Workspace.record_duplicate_sessions Workspace.add_registration Workspace.add_node
    Workspace.append_at Workspace.empty_topology Workspace.insert_diagnostic
    Workspace.record_unknown_parents Workspace.diagnostic_lt resolve_alias resolve_parsed
    Workspace.nearest_children Workspace.node_for_session Workspace.only_node
    Workspace.collect_children Workspace.insert_node Workspace.sort_nodes Workspace.node_lt
    cut_colon filter split_slash drop_length has_prefix split
only_child_node = refl

twice_is_ambiguous :
    (resolve_alias (codes "@parent") (codes "lab") none (build (main ∷ main ∷ tree))).failure
    ≡ some Workspace.ambiguous_hierarchy
unfolding build node_of resolve_alias relationship_alias add_registrations trim_space ◌==◌
    resolve_parsed Workspace.nearest_parent Workspace.node_for_session lookup
    Workspace.with_diagnostics Workspace.add_registration trim_left_rev trim_left is_space is_space2
    is_space3 Workspace.add_node Workspace.append_at insert Workspace.empty_topology
twice_is_ambiguous = refl

diagnosed : length (build (main ∷ main ∷ child (codes "lab") [] ∷ [])).diagnostics ≡ 1
unfolding build node_of add_registrations trim_space lookup insert ◌==◌ trim_left_rev trim_left
    is_space is_space2 is_space3 text_lt Workspace.with_diagnostics Workspace.sort_diagnostics
    Workspace.record_duplicate_sessions Workspace.add_registration Workspace.add_node
    Workspace.append_at Workspace.empty_topology Workspace.insert_diagnostic
    Workspace.record_unknown_parents Workspace.diagnostic_lt
diagnosed = refl

orphan :
    map (λ d. d.code_name) (build (child (codes "lab") [] ∷ [])).diagnostics
    ≡ codes "unknown_parent" ∷ []
unfolding build node_of add_registrations trim_space lookup insert ◌==◌ trim_left_rev trim_left
    is_space is_space2 is_space3 text_lt Workspace.with_diagnostics Workspace.sort_diagnostics
    Workspace.record_duplicate_sessions Workspace.add_registration Workspace.add_node
    Workspace.append_at Workspace.empty_topology Workspace.insert_diagnostic
    Workspace.record_unknown_parents Workspace.diagnostic_lt
orphan = refl

relationship_alias-IsReturned_example :
    IsReturned
      (resolve_alias (codes "@child/one") (codes "main") none (build tree))
      (codes "lab:worker")
unfolding build node_of resolve_alias relationship_alias add_registrations trim_space cut_colon
    Workspace.node_for_session lookup Workspace.with_diagnostics Workspace.add_registration
    trim_left_rev trim_left is_space is_space2 is_space3 Workspace.add_node Workspace.append_at
    insert Workspace.empty_topology ◌==◌
relationship_alias-IsReturned_example =
    relationship_alias-IsReturned (codes "main:boss") (codes "lab:worker") (codes "@child/one") tree
      refl refl refl
