-- ===== src/Workspace/Parsed.antt =====
-- What an alias says: parseAlias of internal/workspacetree/workspacetree.go.
use tmux_a2a_postman.Base.{
  Bool-cases, ap, sym, ◌∙◌, true, false, some, Text, List, [], ◌∷◌, ◌++◌, ◌==◌, eqb, ◌≡◌, inl, inr,
  refl, arith, is_empty, eq_of_beq, has_prefix, drop_length, split_slash, join_slash, trim_space,
  trim_left, trim_left_rev,
}
use tmux_a2a_postman.Workspace.Labels.{name_nonempty}
use tmux_a2a_postman.Workspace.Alias.{
  ParsedAlias, parse_alias, parsed_parent, parsed_child, parent_kind, child_kind, parent_alias,
  parent_alias_prefix, child_alias_prefix,
}

append-drop_length : (p s : Text) → has_prefix p s ≡ true → s ≡ p ++ drop_length p s
unfolding has_prefix drop_length
append-drop_length [] s h = refl
append-drop_length (x ∷ p) [] h = absurd cc
append-drop_length (x ∷ p) (c ∷ s) h = ground (arith, append-drop_length p s)

join-cons :
    (c : _) (xs : List Text)
    → join_slash (elim xs [ [] ↦ (c ∷ []) ∷ [] | y ∷ ys ↦ (c ∷ y) ∷ ys ]) ≡ c ∷ join_slash xs
unfolding join_slash
join-cons c [] = refl
join-cons c (y ∷ []) = refl
join-cons c (y ∷ z ∷ ys) = refl

split_slash-cons : (s : Text) → (x : Text) × (xs : List Text) × (split_slash s ≡ x ∷ xs)
unfolding split_slash
split_slash-cons [] = ([], [], refl)
split_slash-cons (c ∷ s) = elim (Bool-cases (eqb c b'/')) [
  | inl h ↦ ([], split_slash s, ground (arith, h))
  | inr h ↦ let (x, xs, q) = split_slash-cons s in (c ∷ x, xs, ground (arith, h, q))
]

join_slash-split_slash : (s : Text) → join_slash (split_slash s) ≡ s
unfolding split_slash join_slash
join_slash-split_slash [] = refl
join_slash-split_slash (c ∷ s) =
    let (x, xs, q) = split_slash-cons s in
    let ih : join_slash (x ∷ xs) ≡ s = ap join_slash (sym q) ∙ join_slash-split_slash s in
    elim (Bool-cases (eqb c b'/')) [
      | inl h ↦ ground (arith, h, q, ih)
      | inr h ↦ ground (arith, h, q, ih, join-cons c (x ∷ xs))
    ]

-- The alias of a parsed one, as a text
pub data Says (alias : Text) (p : ParsedAlias) : Type 0 where
  parent :
      alias ≡ parent_alias
      → p ≡ record { kind = parent_kind; selector = []; node_name = [] }
      → Says alias p
  parent_node :
      (name : Text)
      → alias ≡ parent_alias_prefix ++ name
      → is_empty name ≡ false
      → p ≡ record { kind = parent_kind; selector = []; node_name = name }
      → Says alias p
  child :
      (selector : Text)
      → alias ≡ child_alias_prefix ++ selector
      → is_empty selector ≡ false
      → p ≡ record { kind = child_kind; selector = selector; node_name = [] }
      → Says alias p
  child_node :
      (selector name : Text)
      → alias ≡ child_alias_prefix ++ (selector ++ (b'/' ∷ name))
      → is_empty selector ≡ false
      → is_empty name ≡ false
      → p ≡ record { kind = child_kind; selector = selector; node_name = name }
      → Says alias p

trimmed-nonempty : (x : Text) → is_empty (trim_space x) ≡ false → is_empty x ≡ false
unfolding trim_space trim_left trim_left_rev
trimmed-nonempty [] h = ground (arith, h)
trimmed-nonempty (c ∷ x) h = refl

Says-child :
    (alias body : Text) (xs : List Text) (p : ParsedAlias)
    → alias ≡ child_alias_prefix ++ body
    → join_slash xs ≡ body
    → parsed_child xs ≡ some p
    → Says alias p
unfolding parsed_child join_slash
Says-child alias body [] p a j h = absurd (ground (arith, h))
Says-child alias body (x ∷ []) p a j h =
    child x (a ∙ ap (λ b. child_alias_prefix ++ b) (sym j)) (trimmed-nonempty x (ground (arith, h)))
      (ground (arith, h))
Says-child alias body (x ∷ y ∷ []) p a j h =
    child_node x y (a ∙ ap (λ b. child_alias_prefix ++ b) (sym j))
      (trimmed-nonempty x (ground (arith, h))) (name_nonempty y (ground (arith, h)))
      (ground (arith, h))
Says-child alias body (x ∷ y ∷ z ∷ xs) p a j h = absurd (ground (arith, h))

pub parse_alias-Says : (alias : Text) (p : ParsedAlias) → parse_alias alias ≡ some p → Says alias p
unfolding parse_alias parsed_parent
parse_alias-Says alias p h = elim (Bool-cases (alias == parent_alias)) [
  | inl q ↦ parent (eq_of_beq alias parent_alias q) (ground (arith, h, q))
  | inr q ↦ elim (Bool-cases (has_prefix parent_alias_prefix alias)) [
    | inl r ↦
        let name = drop_length parent_alias_prefix alias in
        parent_node name (append-drop_length parent_alias_prefix alias r)
          (name_nonempty name (ground (arith, h, q, r))) (ground (arith, h, q, r))
    | inr r ↦ elim (Bool-cases (has_prefix child_alias_prefix alias)) [
      | inl u ↦
          let body = drop_length child_alias_prefix alias in
          Says-child alias body (split_slash body) p (append-drop_length child_alias_prefix alias u)
            (join_slash-split_slash body) (ground (arith, h, q, r, u))
      | inr u ↦ absurd (ground (arith, h, q, r, u))
    ]
  ]
]
