-- ===== src/Workspace/Labels.antt =====
-- Reading the aliases that are written for parents and children: parseAlias and RelationshipAlias of
-- internal/workspacetree/workspacetree.go.
use tmux_a2a_postman.Base.{
  inl, inr, Option-cases, refl, ◌≡◌, Text, [], ◌∷◌, ◌++◌, arith, true, false, is_empty, some, none,
  split_slash, all, trim_space_visible, is_visible, has_prefix, drop_length, ◌==◌,
}
use tmux_a2a_postman.Address.{full, split, cut_colon, validate_node_name, is_name_byte, is_alnum}
use tmux_a2a_postman.Workspace.Alias.{parse_alias, parsed_child, child_kind, child_alias_prefix}

name_byte-visible : (s : Text) → all is_name_byte s ≡ true → all is_visible s ≡ true
unfolding all is_name_byte is_alnum
name_byte-visible [] h = refl
name_byte-visible (c ∷ s) h = ground (arith, name_byte-visible s)

split_slash_name : (s : Text) → all is_name_byte s ≡ true → split_slash s ≡ s ∷ []
unfolding all is_name_byte is_alnum split_slash
split_slash_name [] h = refl
split_slash_name (c ∷ s) h = ground (arith, split_slash_name s)

cut_colon_name : (s : Text) → all is_name_byte s ≡ true → cut_colon s ≡ none
unfolding all is_name_byte is_alnum cut_colon
cut_colon_name [] h = refl
cut_colon_name (c ∷ s) h = ground (arith, cut_colon_name s)

name_bytes : (s : Text) → validate_node_name s ≡ true → all is_name_byte s ≡ true
unfolding validate_node_name all is_name_byte
name_bytes [] h = refl
name_bytes (c ∷ s) h = ground arith

pub name_nonempty : (s : Text) → validate_node_name s ≡ true → is_empty s ≡ false
unfolding validate_node_name
name_nonempty [] h = absurd cc
name_nonempty (c ∷ s) h = refl

pub parse_child_alias :
    (label : Text)
    → validate_node_name label ≡ true
    → parse_alias (child_alias_prefix ++ label)
      ≡ some (record { kind = child_kind; selector = label; node_name = [] })
unfolding parse_alias parsed_child ◌==◌ has_prefix drop_length
parse_child_alias label h =
    let bytes = name_bytes label h in
    ground (
      arith,
      h,
      split_slash_name label bytes,
      trim_space_visible label (name_byte-visible label bytes),
      name_nonempty label h,
    )

cut_colon-joined : (a x y : Text) → cut_colon a ≡ some (x, y) → a ≡ x ++ (b':' ∷ y)
unfolding cut_colon
cut_colon-joined [] x y h = absurd cc
cut_colon-joined (c ∷ a) x y h = elim (Option-cases (cut_colon a)) [
  | inl q ↦ ground (arith, h, q)
  | inr ((x', y'), q) ↦ ground (arith, h, q, cut_colon-joined a x' y' q)
]

-- A qualified address of a valid node is what its two parts make.
pub full_parts :
    (a : Text)
    → (split a).has_session ≡ true
    → validate_node_name (split a).node_name ≡ true
    → full (split a).node_name (split a).session_name ≡ a
unfolding full split
full_parts a h v = elim (Option-cases (cut_colon a)) [
  | inl q ↦ absurd (ground (arith, h, q))
  | inr ((x, y), q) ↦
      let valid : validate_node_name y ≡ true = ground (arith, v, q) in
      ground (arith, q, cut_colon-joined a x y q, cut_colon_name y (name_bytes y valid))
]
