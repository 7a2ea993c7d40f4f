-- ===== src/Workspace/Built.antt =====
-- What the maps of a built workspace tree hold: internal/workspacetree/workspacetree.go.
use mathlib.Core.List.{append-nil}
use tmux_a2a_postman.Base.{
  Bool-cases, inl, inr, subst, ◌≡◌, refl, sym, ap, ◌∙◌, false, not, ◌&&◌, Text, List, [], ◌∷◌, ◌++◌,
  arith, lookup, lookup-insert, beq_iff, ◌==◌, is_empty, filter, filter-append, if◌then◌else◌, Map,
  Bool,
}
use tmux_a2a_postman.Workspace.{
  Node, Topology, Registration, slice_at, append_at, add_node, add_registration, add_registrations,
  build, node_of, empty_topology, with_diagnostics,
}

abbrev pub in_session : Text → Node → Bool
in_session s n = n.session_name == s

abbrev pub has_parent : Text → Node → Bool
has_parent s n = not (is_empty n.parent_session_name) && n.parent_session_name == s

-- Both maps hold, for every name, the nodes of it in their order, and no session is empty.
abbrev pub IsIndexed : Topology → Type 0
IsIndexed t =
    ((s : Text) → slice_at s t.by_session ≡ filter (in_session s) t.nodes)
    × ((s : Text) → slice_at s t.children_by_parent ≡ filter (has_parent s) t.nodes)
    × (filter (in_session []) t.nodes ≡ [])

slice_at-append_at :
    (k s : Text) (n : Node) (m : Map (List Node))
    → slice_at s (append_at k n m) ≡ slice_at s m ++ (if k == s then n ∷ [] else [])
unfolding append_at
slice_at-append_at k s n m =
    ground
      (arith, lookup-insert k s (slice_at k m ++ n ∷ []) m, beq_iff k s, append-nil (slice_at s m))

add_node-IsIndexed :
    (n : Node) (t : Topology)
    → is_empty n.session_name ≡ false
    → IsIndexed t
    → IsIndexed (add_node n t)
unfolding add_node filter
add_node-IsIndexed n t named h = (
  λ s.
      slice_at-append_at n.session_name s n t.by_session
      ∙ ap (λ l. l ++ (if in_session s n then n ∷ [] else [])) (h.0 s)
      ∙ sym (filter-append (in_session s) t.nodes (n ∷ [])),
  λ s. ground (
    arith,
    h.1 s,
    slice_at-append_at n.parent_session_name s n t.children_by_parent,
    filter-append (has_parent s) t.nodes (n ∷ []),
    append-nil (filter (has_parent s) t.nodes),
  ),
  ground (
    arith,
    h.2,
    filter-append (in_session []) t.nodes (n ∷ []),
    named,
    beq_iff n.session_name [],
  ),
)

add_registration-IsIndexed :
    (r : Registration) (t : Topology) → IsIndexed t → IsIndexed (add_registration r t)
unfolding add_registration
add_registration-IsIndexed r t h = elim (Bool-cases (is_empty (node_of r).session_name)) [
  | inl e ↦ subst (λ b. IsIndexed (if b then t else add_node (node_of r) t)) (sym e) h
  | inr e ↦
      subst (λ b. IsIndexed (if b then t else add_node (node_of r) t)) (sym e)
        (add_node-IsIndexed (node_of r) t e h)
]

add_registrations-IsIndexed :
    (rs : List Registration) (t : Topology) → IsIndexed t → IsIndexed (add_registrations rs t)
unfolding add_registrations
add_registrations-IsIndexed [] t h = h
add_registrations-IsIndexed (r ∷ rs) t h =
    add_registrations-IsIndexed rs (add_registration r t) (add_registration-IsIndexed r t h)

pub build-IsIndexed : (rs : List Registration) → IsIndexed (build rs)
unfolding build with_diagnostics empty_topology filter lookup
build-IsIndexed rs = add_registrations-IsIndexed rs empty_topology (λ s. refl, λ s. refl, refl)
