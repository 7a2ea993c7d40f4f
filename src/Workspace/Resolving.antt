-- ===== src/Workspace/Resolving.antt =====
-- Where an alias leads: ResolveAlias of internal/workspacetree/workspacetree.go.
use mathlib.Core.List.{List, Memᴰ}
use mathlib.Core.List.Memᴰ
use tmux_a2a_postman.Base.{
  inl, inr, Result-cases, Bool-cases, ap, subst, ok, refl, sym, if◌then◌else◌, sym, Bool-cases, ap,
  ◌∙◌, Result-cases, subst, beq_refl, eq_of_beq, member_single, member-filter, filter-member, ◌≡◌,
  Text, [], ◌∷◌, arith, filter, ok, ◌↔◌,
}
use tmux_a2a_postman.Workspace.{
  only_node, slice_at, sort_nodes, nearest_children, nearest_parent, insert_node, collect_children,
  node_lt, Node, Topology, node_for_session,
}
use tmux_a2a_postman.Workspace.Built.{has_parent, in_session, IsIndexed}

-- the node is the only one of the session
abbrev pub IsOnly : Topology → Text → Node → Type 0
IsOnly t s n = filter (in_session s) t.nodes ≡ n ∷ []

member-insert_node : (x n : Node) (xs : List Node) → Memᴰ x (insert_node n xs) → Memᴰ x (n ∷ xs)
unfolding insert_node
member-insert_node x n [] m = m
member-insert_node x n (y ∷ ys) m = elim (Bool-cases (node_lt y n)) [
  | inl h ↦ elim (subst (λ b. Memᴰ x (if b then y ∷ insert_node n ys else n ∷ y ∷ ys)) h m) [
    | Memᴰ.head e ↦ Memᴰ.tail (Memᴰ.head e)
    | Memᴰ.tail k ↦ elim (member-insert_node x n ys k) [
      | Memᴰ.head e ↦ Memᴰ.head e
      | Memᴰ.tail r ↦ Memᴰ.tail (Memᴰ.tail r)
    ]
  ]
  | inr h ↦ subst (λ b. Memᴰ x (if b then y ∷ insert_node n ys else n ∷ y ∷ ys)) h m
]

member-sort_nodes : (x : Node) (ns : List Node) → Memᴰ x (sort_nodes ns) → Memᴰ x ns
unfolding sort_nodes
member-sort_nodes x [] m = m
member-sort_nodes x (n ∷ ns) m = elim (member-insert_node x n (sort_nodes ns) m) [
  | Memᴰ.head e ↦ Memᴰ.head e
  | Memᴰ.tail k ↦ Memᴰ.tail (member-sort_nodes x ns k)
]

module _ (t : Topology) (indexed : IsIndexed t) where
  -- A session has a node exactly if it is registered once.
  pub node_for_session-IsOnly : (s : Text) (n : Node) → (node_for_session s t ≡ ok n) ↔ IsOnly t s n
  unfolding node_for_session only_node
  node_for_session-IsOnly s n = (λ h. ground (arith, indexed.0 s), λ h. ground (arith, indexed.0 s))

  member-IsOnly :
      (n x : Node) → Memᴰ n t.nodes → IsOnly t n.session_name x → IsOnly t n.session_name n
  member-IsOnly n x m only =
      let same : n ≡ x = member_single (
        subst (Memᴰ n) only
          (member-filter (in_session n.session_name) n t.nodes m (beq_refl n.session_name))) in
      only ∙ ap (λ y. y ∷ []) (sym same)

  pub collect_children-ok :
      (ns cs : List Node)
      → collect_children t ns ≡ ok cs
      → (cs ≡ ns)
        × ((n : Node) → Memᴰ n ns → (x : Node) × (node_for_session n.session_name t ≡ ok x))
  unfolding collect_children
  collect_children-ok [] cs h = (ground (arith, h), λ n m. absurd (Memᴰ.not-nil m))
  collect_children-ok (n ∷ ns) cs h = elim (Result-cases (node_for_session n.session_name t)) [
    | inl (e, q) ↦ absurd (ground (arith, h, q))
    | inr (x, q) ↦ elim (Result-cases (collect_children t ns)) [
      | inl (e, r) ↦ absurd (ground (arith, h, q, r))
      | inr (xs, r) ↦
          let rest = collect_children-ok ns xs r in
          (
            ground (arith, h, q, r, rest.0),
            λ y m. elim m [
              | Memᴰ.head p ↦ (x, ap (λ z. node_for_session z.session_name t) p ∙ q)
              | Memᴰ.tail k ↦ rest.1 y k
            ],
          )
    ]
  ]

  pub nearest_children-ok :
      (s : Text) (cs : List Node)
      → nearest_children s t ≡ ok cs
      → (n : Node) → Memᴰ n cs
      → (n.parent_session_name ≡ s) × IsOnly t n.session_name n
  unfolding nearest_children
  nearest_children-ok s cs h n m =
      elim (Result-cases (collect_children t (slice_at s t.children_by_parent))) [
        | inl (e, q) ↦ absurd (ground (arith, h, q))
        | inr (xs, q) ↦
            let kept = collect_children-ok (slice_at s t.children_by_parent) xs q in
            let sorted : cs ≡ sort_nodes xs = ground (arith, h, q) in
            let in_slice : Memᴰ n (slice_at s t.children_by_parent) =
              subst (Memᴰ n) kept.0 (member-sort_nodes n xs (subst (Memᴰ n) sorted m)) in
            let child =
              filter-member (has_parent s) n t.nodes (subst (Memᴰ n) (indexed.1 s) in_slice) in
            let found = kept.1 n in_slice in
            (
              eq_of_beq n.parent_session_name s (ground (arith, child.1)),
              member-IsOnly n found.0 child.0
                  ((node_for_session-IsOnly n.session_name found.0).0 found.1),
            )
      ]

  pub nearest_parent-ok :
      (s : Text) (p : Node)
      → nearest_parent s t ≡ ok p
      → (source : Node) × IsOnly t s source
        × (source.parent_session_name ≡ p.session_name)
        × IsOnly t p.session_name p
  unfolding nearest_parent
  nearest_parent-ok s p h = elim (Result-cases (node_for_session s t)) [
    | inl (e, q) ↦ absurd (ground (arith, h, q))
    | inr (source, q) ↦
        let at_parent : node_for_session source.parent_session_name t ≡ ok p =
          ground (arith, h, q) in
        let only = (node_for_session-IsOnly source.parent_session_name p).0 at_parent in
        let in_parent =
          filter-member (in_session source.parent_session_name) p t.nodes
            (subst (Memᴰ p) (sym only) (Memᴰ.head refl)) in
        let same = eq_of_beq p.session_name source.parent_session_name in_parent.1 in
        (
          source,
          (node_for_session-IsOnly s source).0 q,
          sym same,
          subst (λ z. IsOnly t z p) (sym same) only,
        )
  ]
