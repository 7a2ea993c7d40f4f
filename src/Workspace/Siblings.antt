-- ===== src/Workspace/Siblings.antt =====
-- The children of a session, and the targets among them: internal/workspacetree/workspacetree.go.
use mathlib.Core.List.{Memᴰ}
use mathlib.Core.List.Memᴰ
use tmux_a2a_postman.Base.{
  inl, inr, Result-cases, ap, subst, ◌⊎◌, ok, err, refl, sym, if◌then◌else◌, ◌∙◌, beq_refl,
  eq_of_beq, ◌≡◌, Text, List, [], ◌∷◌, arith, filter, true, false, is_empty, member-filter,
  member_single, filter-member,
}
use tmux_a2a_postman.Workspace.{
  Node, Topology, nearest_children, node_for_session, only_node, collect_children, slice_at,
  sort_nodes, insert_node, node_lt, AliasFailure, ambiguous_child, ambiguous_hierarchy,
}
use tmux_a2a_postman.Workspace.Built.{IsIndexed, has_parent, in_session}
use tmux_a2a_postman.Workspace.Resolving.{IsOnly, node_for_session-IsOnly, collect_children-ok}
use tmux_a2a_postman.Workspace.Alias.{ParsedAlias, select_match, select_children, is_selected}

insert_node-member : (x n : Node) (xs : List Node) → Memᴰ x (n ∷ xs) → Memᴰ x (insert_node n xs)
unfolding insert_node
insert_node-member x n [] m = m
insert_node-member x n (y ∷ ys) m =
    elim (node_lt y n) as (λ b. Memᴰ x (if b then y ∷ insert_node n ys else n ∷ y ∷ ys)) [
      | false ↦ m
      | true ↦ elim m [
        | Memᴰ.head e ↦ Memᴰ.tail (insert_node-member x n ys (Memᴰ.head e))
        | Memᴰ.tail k ↦ elim k [
          | Memᴰ.head e ↦ Memᴰ.head e
          | Memᴰ.tail r ↦ Memᴰ.tail (insert_node-member x n ys (Memᴰ.tail r))
        ]
      ]
    ]

pub sort_nodes-member : (x : Node) (ns : List Node) → Memᴰ x ns → Memᴰ x (sort_nodes ns)
unfolding sort_nodes
sort_nodes-member x [] m = m
sort_nodes-member x (n ∷ ns) (Memᴰ.head e) = insert_node-member x n (sort_nodes ns) (Memᴰ.head e)
sort_nodes-member x (n ∷ ns) (Memᴰ.tail m) =
    insert_node-member x n (sort_nodes ns) (Memᴰ.tail (sort_nodes-member x ns m))

-- A list with a member has one or several.
pub select_match-returned :
    (p : ParsedAlias) (n : Node) (ms cs : List Node)
    → Memᴰ n ms
    → (select_match p ms cs ≡ ok (p, n)) ⊎ (select_match p ms cs ≡ err ambiguous_child)
unfolding select_match
select_match-returned p n [] cs m = absurd (Memᴰ.not-nil m)
select_match-returned p n (x ∷ []) cs m = inl (ap (λ y. ok (p, y)) (sym (member_single m)))
select_match-returned p n (x ∷ y ∷ ys) cs m = inr refl

pub member-select :
    (selector : Text) (n : Node) (cs : List Node)
    → is_empty selector ≡ false
    → is_selected selector n ≡ true
    → Memᴰ n cs
    → Memᴰ n (select_children cs selector)
unfolding select_children
member-select [] n cs h e m = absurd cc
member-select (c ∷ s) n cs h e m = member-filter (is_selected (c ∷ s)) n cs m e

only_node-member :
    (n : Node) (ns : List Node) (e : AliasFailure)
    → Memᴰ n ns
    → only_node ns ≡ err e
    → e ≡ ambiguous_hierarchy
unfolding only_node
only_node-member n [] e m h = absurd (Memᴰ.not-nil m)
only_node-member n (x ∷ []) e m h = absurd cc
only_node-member n (x ∷ y ∷ ys) e m h = cc

module _ (t : Topology) (indexed : IsIndexed t) where
  node_for_session_of_member :
      (n : Node)
      → Memᴰ n t.nodes
      → (e : AliasFailure) → node_for_session n.session_name t ≡ err e
      → e ≡ ambiguous_hierarchy
  unfolding node_for_session
  node_for_session_of_member n m e h =
      only_node-member n (slice_at n.session_name t.by_session) e
        (subst (Memᴰ n) (sym (indexed.0 n.session_name))
          (member-filter (in_session n.session_name) n t.nodes m (beq_refl n.session_name)))
        h

  collect_children-err :
      (ns : List Node) (e : AliasFailure)
      → ((n : Node) → Memᴰ n ns → Memᴰ n t.nodes)
      → collect_children t ns ≡ err e
      → e ≡ ambiguous_hierarchy
  unfolding collect_children
  collect_children-err [] e sub h = absurd cc
  collect_children-err (n ∷ ns) e sub h = elim (Result-cases (node_for_session n.session_name t)) [
    | inl (e', q) ↦ node_for_session_of_member n (sub n (Memᴰ.head refl)) e (ground (arith, h, q))
    | inr (x, q) ↦ elim (Result-cases (collect_children t ns)) [
      | inl (e', r) ↦
          collect_children-err ns e (λ y m. sub y (Memᴰ.tail m)) (ground (arith, h, q, r))
      | inr (xs, r) ↦ absurd (ground (arith, h, q, r))
    ]
  ]

  -- The children of a session: all that name it, or the tree is ambiguous.
  pub nearest_children-cases :
      (s : Text) (view : Node)
      → node_for_session s t ≡ ok view
      → (nearest_children s t ≡ err ambiguous_hierarchy)
        ⊎ (nearest_children s t ≡ ok (sort_nodes (filter (has_parent s) t.nodes)))
  unfolding nearest_children
  nearest_children-cases s view h =
      elim (Result-cases (collect_children t (slice_at s t.children_by_parent))) [
        | inl (e, q) ↦
            let ambiguous : e ≡ ambiguous_hierarchy =
              collect_children-err (slice_at s t.children_by_parent) e
                (λ n m. (filter-member (has_parent s) n t.nodes (subst (Memᴰ n) (indexed.1 s) m)).0)
                q in
            inl (ground (arith, h, q, ambiguous))
        | inr (cs, q) ↦
            let same : cs ≡ filter (has_parent s) t.nodes =
              (collect_children-ok t indexed (slice_at s t.children_by_parent) cs q).0
              ∙ indexed.1 s in
            inr (ground (arith, h, q, same))
      ]

  only_named : (s : Text) (n : Node) → IsOnly t s n → is_empty s ≡ false
  only_named [] n only = let q = sym only ∙ indexed.2 in absurd cc
  only_named (c ∷ s) n only = refl

  pub node_for_session-member :
      (s : Text) (n : Node)
      → node_for_session s t ≡ ok n
      → Memᴰ n t.nodes × (n.session_name ≡ s) × (is_empty s ≡ false)
  node_for_session-member s n h =
      let only = (node_for_session-IsOnly t indexed s n).0 h in
      let m = filter-member (in_session s) n t.nodes (subst (Memᴰ n) (sym only) (Memᴰ.head refl)) in
      (m.0, eq_of_beq n.session_name s m.1, only_named s n only)
