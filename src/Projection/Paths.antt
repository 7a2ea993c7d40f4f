-- ===== src/Projection/Paths.antt =====
-- The relative paths of mailbox files: pathKey and isAllowedProjectionPath of
-- internal/projection/mailbox_projection.go.
use tmux_a2a_postman.Base.{
  Bool, false, ◌||◌, Text, codes, List, [], ◌∷◌, ◌==◌, is_empty, has_prefix, any, is_abs,
  path_clean, split_slash, if◌then◌else◌,
}

unfoldable pub path_key : Text → Text
path_key = path_clean

-- mailboxProjectionRoots
abbrev mailbox_projection_roots : List Text
mailbox_projection_roots = codes "post" ∷ codes "inbox" ∷ codes "read" ∷ codes "dead-letter" ∷ []

-- strings.SplitN(clean, "/", 2)[0]
abbrev first_element : Text → Text
first_element clean = elim (split_slash clean) [ [] ↦ [] | x ∷ xs ↦ x ]

unfoldable pub is_allowed_projection_path : Text → Bool
is_allowed_projection_path relative_path =
    if is_empty relative_path
    then false
    else if is_abs relative_path
    then false
    else let clean = path_key relative_path in
      if clean == codes "." || (clean == codes ".." || has_prefix (codes "../") clean)
      then false
      else any (λ r. first_element clean == r) mailbox_projection_roots
