-- ===== src/Workspace/Selecting.antt =====
-- The child that an alias selects: ResolveAlias of internal/workspacetree/workspacetree.go.
use mathlib.Core.List.{Memᴰ}
use tmux_a2a_postman.Base.{
  inl, inr, Bool-cases, ap, subst, ◌⊎◌, ok, sym, filter-member, filter, ◌≡◌, Text, List, [], ◌∷◌,
  arith, true, false, is_empty,
}
use tmux_a2a_postman.Workspace.{Node}
use tmux_a2a_postman.Workspace.Alias.{
  ParsedAlias, select_target, select_match, select_only_child, select_children, is_selected,
}

-- the alias that is read as the name of a node in the only child
abbrev pub in_only_child : ParsedAlias → ParsedAlias
in_only_child p = record { kind = p.kind; selector = []; node_name = p.selector }

-- The target is a child that the selector selects, or the only child, which it does not select.
abbrev pub IsTarget : ParsedAlias → List Node → ParsedAlias → Node → Type 0
IsTarget p cs q n =
    Memᴰ n cs
    × (((q ≡ p) × (is_selected p.selector n ≡ true))
        ⊎ ((q ≡ in_only_child p)
            × (is_empty p.node_name ≡ true)
            × (cs ≡ n ∷ [])
            × (is_selected p.selector n ≡ false)))

select_children-filter :
    (selector : Text) (cs : List Node)
    → is_empty selector ≡ false
    → select_children cs selector ≡ filter (is_selected selector) cs
unfolding select_children
select_children-filter selector cs h = ground (arith, h)

unselected :
    (selector : Text) (n : Node)
    → filter (is_selected selector) (n ∷ []) ≡ []
    → is_selected selector n ≡ false
unfolding filter
unselected selector n h = elim (Bool-cases (is_selected selector n)) [
  | inl e ↦ absurd (ground (arith, h, e))
  | inr e ↦ e
]

select_only_child-IsTarget :
    (p q : ParsedAlias) (n : Node) (cs : List Node)
    → is_empty p.node_name ≡ true
    → filter (is_selected p.selector) cs ≡ []
    → select_only_child p cs ≡ ok (q, n)
    → IsTarget p cs q n
unfolding select_only_child
select_only_child-IsTarget p q n [] e f h = absurd cc
select_only_child-IsTarget p q n (x ∷ []) e f h =
    let same : x ≡ n = cc in
    (
      Memᴰ.head (sym same),
      inr (
        cc,
        e,
        ap (λ y. y ∷ []) same,
        subst (λ y. is_selected p.selector y ≡ false) same (unselected p.selector x f),
      ),
    )
select_only_child-IsTarget p q n (x ∷ y ∷ ys) e f h = absurd cc

select_match-IsTarget :
    (p q : ParsedAlias) (n : Node) (ms cs : List Node)
    → filter (is_selected p.selector) cs ≡ ms
    → select_match p ms cs ≡ ok (q, n)
    → IsTarget p cs q n
unfolding select_match
select_match-IsTarget p q n [] cs f h = elim (Bool-cases (is_empty p.node_name)) [
  | inl e ↦ select_only_child-IsTarget p q n cs e f (ground (arith, h, e))
  | inr e ↦ absurd (ground (arith, h, e))
]
select_match-IsTarget p q n (x ∷ []) cs f h =
    let same : x ≡ n = cc in
    let m =
      filter-member (is_selected p.selector) n cs (subst (Memᴰ n) (sym f) (Memᴰ.head (sym same))) in
    (m.0, inl (cc, m.1))
select_match-IsTarget p q n (x ∷ y ∷ ys) cs f h = absurd cc

pub select_target-IsTarget :
    (p q : ParsedAlias) (n : Node) (cs : List Node)
    → is_empty p.selector ≡ false
    → select_target p cs ≡ ok (q, n)
    → IsTarget p cs q n
unfolding select_target
select_target-IsTarget p q n cs e h =
    select_match-IsTarget p q n (select_children cs p.selector) cs
      (sym (select_children-filter p.selector cs e)) h
