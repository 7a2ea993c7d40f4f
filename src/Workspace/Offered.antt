-- ===== src/Workspace/Offered.antt =====
-- The aliases that are offered for a target: RelationshipAlias and ResolveAlias of
-- internal/workspacetree/workspacetree.go.
use mathlib.Core.List.{Memᴰ}
use tmux_a2a_postman.Base.{
  all, all-member, inl, inr, Result-cases, Bool-cases, ap, subst, ◌⊎◌, ok, refl, sym, ◌∙◌, beq_refl,
  eq_of_beq, ◌≡◌, Text, List, [], ◌++◌, arith, filter, true, false, is_empty, some, none, ◌==◌,
  member-filter,
}
use tmux_a2a_postman.Address.{full, split, validate_node_name}
use tmux_a2a_postman.Workspace.{
  Node, Topology, Registration, build, nearest_parent, node_for_session, sort_nodes,
  ambiguous_child, ambiguous_hierarchy,
}
use tmux_a2a_postman.Workspace.Built.{IsIndexed, build-IsIndexed, has_parent}
use tmux_a2a_postman.Workspace.Labels.{parse_child_alias, full_parts, name_nonempty}
use tmux_a2a_postman.Workspace.Alias
use tmux_a2a_postman.Workspace.Alias.{
  ParsedAlias, AliasResolution, resolve_alias, resolve_parsed, select_target, select_match,
  alias_failed, select_children, is_selected, parse_alias, parent_kind, child_kind, parent_alias,
  child_alias_prefix, relationship_alias, alias_between,
}
use tmux_a2a_postman.Workspace.Siblings.{
  sort_nodes-member, select_match-returned, member-select, nearest_children-cases,
  node_for_session-member,
}

-- the resolution gives the address, or the tree is ambiguous
abbrev pub IsReturned : AliasResolution → Text → Type 0
IsReturned r w =
    ((r.found ≡ true) × (r.address ≡ w))
    ⊎ ((r.failure ≡ some ambiguous_child) ⊎ (r.failure ≡ some ambiguous_hierarchy))

module _ (t : Topology) (indexed : IsIndexed t) where
  module _ (v w : Text) (view target : Node)
      (at_view : node_for_session (split v).session_name t ≡ ok view)
      (at_target : node_for_session (split w).session_name t ≡ ok target)
      (is_qualified : (split w).has_session ≡ true)
      (is_node : validate_node_name (split w).node_name ≡ true)
      (is_representative : (split w).node_name ≡ target.representative) where
    -- The end of the resolution at the target, in an alias without a node
    IsReturned-at_target :
        (p : ParsedAlias) → p.node_name ≡ [] → IsReturned (Alias.at_target p target none) w
    IsReturned-at_target p h =
        let (m, session, named) =
          node_for_session-member t indexed (split w).session_name target at_target in
        let rep : is_empty target.representative ≡ false =
          ap is_empty (sym is_representative) ∙ name_nonempty (split w).node_name is_node in
        let address : (Alias.at_target p target none).address
            ≡ full target.representative target.session_name =
          unfold Alias.at_target in ground (arith, h, rep) in
        inl (
          unfold Alias.at_target in ground (arith, h, rep),
          address
              ∙ ap (λ x. full x target.session_name) (sym is_representative)
              ∙ ap (full (split w).node_name) session
              ∙ full_parts w is_qualified is_node,
        )

    parent-IsReturned :
        view.parent_session_name ≡ target.session_name
        → IsReturned (resolve_alias parent_alias (split v).session_name none t) w
    parent-IsReturned h =
        let (m, session, named) =
          node_for_session-member t indexed (split w).session_name target at_target in
        let parent : view.parent_session_name ≡ (split w).session_name = h ∙ session in
        let found : nearest_parent (split v).session_name t ≡ ok target =
          unfold nearest_parent in ground (arith, at_view, at_target, parent, named) in
        let p : ParsedAlias = record { kind = parent_kind; selector = []; node_name = [] } in
        let same : resolve_alias parent_alias (split v).session_name none t
            ≡ Alias.at_target p target none =
          unfold resolve_alias resolve_parsed parse_alias ◌==◌ in ground (arith, found) in
        subst (λ r. IsReturned r w) (sym same) (IsReturned-at_target p refl)

    child-IsReturned :
        target.parent_session_name ≡ view.session_name
        → validate_node_name target.label ≡ true
        → IsReturned
            (resolve_alias (child_alias_prefix ++ target.label) (split v).session_name none t)
            w
    child-IsReturned h label =
        elim (nearest_children-cases t indexed (split v).session_name view at_view) [
          | inl q ↦ inr (
              inr (
                unfold resolve_alias resolve_parsed alias_failed in
                ground (arith, parse_child_alias target.label label, q)))
          | inr q ↦
              elim (select_match-returned p target (select_children children target.label) children
                selected) [
                  | inl r ↦
                      let same : resolve_alias (child_alias_prefix ++ target.label)
                            (split v).session_name none t
                          ≡ Alias.at_target p target none =
                        unfold resolve_alias resolve_parsed select_target in
                        ground (arith, parse_child_alias target.label label, q, r) in
                      subst (λ r. IsReturned r w) (sym same) (IsReturned-at_target p refl)
                  | inr r ↦ inr (
                      inl (
                        unfold resolve_alias resolve_parsed alias_failed select_target in
                        ground (arith, parse_child_alias target.label label, q, r)))
                ]
        ]
      where
        p : ParsedAlias
        p = record { kind = child_kind; selector = target.label; node_name = [] }

        children : List Node
        children = sort_nodes (filter (has_parent (split v).session_name) t.nodes)

        selected : Memᴰ target (select_children children target.label)
        selected =
            let (m, session, named) =
              node_for_session-member t indexed (split w).session_name target at_target in
            let (m', session', named') =
              node_for_session-member t indexed (split v).session_name view at_view in
            let parent : target.parent_session_name ≡ (split v).session_name = h ∙ session' in
            let child : has_parent (split v).session_name target ≡ true =
              ground (arith, parent, named', beq_refl (split v).session_name) in
            member-select target.label target children (name_nonempty target.label label)
              (ground (arith, beq_refl target.label))
              (sort_nodes-member target (filter (has_parent (split v).session_name) t.nodes)
                (member-filter (has_parent (split v).session_name) target t.nodes m child))

-- The alias that is offered for a target leads back to the target, or it fails because the tree is
-- ambiguous, if the target names a valid node and the labels of the tree are valid names.
pub relationship_alias-IsReturned :
    (v w alias : Text) (rs : List Registration)
    → relationship_alias v w (build rs) ≡ some alias
    → validate_node_name (split w).node_name ≡ true
    → all (λ n. validate_node_name n.label) (build rs).nodes ≡ true
    → IsReturned (resolve_alias alias (split v).session_name none (build rs)) w
unfolding relationship_alias alias_between
relationship_alias-IsReturned v w alias rs h is_node labels =
    elim (Result-cases (node_for_session (split v).session_name (build rs))) [
      | inl (e, q) ↦ absurd (ground (arith, h, q))
      | inr (view, q) ↦ elim (Result-cases (node_for_session (split w).session_name (build rs))) [
        | inl (e, r) ↦ absurd (ground (arith, h, q, r))
        | inr (target, r) ↦
            let i = build-IsIndexed rs in
            let qualified : (split w).has_session ≡ true = ground (arith, h, q, r) in
            let rep : (split w).node_name ≡ target.representative =
              ground (arith, h, q, r, eq_of_beq (split w).node_name target.representative) in
            elim (Bool-cases (view.parent_session_name == target.session_name)) [
              | inl e ↦
                  let same : parent_alias ≡ alias = ground (arith, h, q, r, e) in
                  subst (λ a. IsReturned (resolve_alias a (split v).session_name none (build rs)) w)
                    same
                    (parent-IsReturned (build rs) i v w view target q r qualified is_node rep
                      (eq_of_beq _ _ e))
              | inr e ↦
                  let same : child_alias_prefix ++ target.label ≡ alias =
                    ground (arith, h, q, r, e) in
                  let child : (target.parent_session_name == view.session_name) ≡ true =
                    ground (arith, h, q, r, e) in
                  let (m, session, named) =
                    node_for_session-member (build rs) i (split w).session_name target r in
                  subst (λ a. IsReturned (resolve_alias a (split v).session_name none (build rs)) w)
                    same
                    (child-IsReturned (build rs) i v w view target q r qualified is_node rep
                      (eq_of_beq _ _ child)
                      (all-member (λ n. validate_node_name n.label) target (build rs).nodes m
                        labels))
            ]
      ]
    ]
