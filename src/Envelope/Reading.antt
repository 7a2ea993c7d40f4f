-- ===== src/Envelope/Reading.antt =====
-- ScanFrontmatter and ParseMetadata of internal/envelope/metadata.go, with what they call. A line is
-- the text between two line feeds.
use tmux_a2a_postman.Base.{
  Bool, false, ◌&&◌, ◌||◌, not, Option, none, some, Text, codes, List, [], ◌∷◌, ◌==◌, is_empty,
  has_prefix, if◌then◌else◌, eqb, ltb, ℕ, suc, cut, trim_space, lookup, Result, ok, err,
}
use tmux_a2a_postman.Envelope.{
  Metadata, only_body, field_keys, set_field, EnvelopeError, not_closed, no_frontmatter,
  missing_from_or_to,
}

-- ScanFrontmatter: the frontmatter and the body
unfoldable pub scan_frontmatter : Text → Result EnvelopeError (Option (Text × Text))
scan_frontmatter content = elim (cut (codes "---\n") content) [
  | none ↦ ok none
  | some (before, rest) ↦ elim (cut (codes "\n---") rest) [
    | none ↦ err not_closed
    | some (frontmatter, body) ↦ ok (some (frontmatter, body))
  ]
]

-- strings.Split at a line feed
unfoldable pub split_lines : Text → List Text
split_lines [] = [] ∷ []
split_lines (c ∷ s) =
    let rest = split_lines s in
    if eqb c b'\n' then [] ∷ rest else elim rest [ [] ↦ (c ∷ []) ∷ [] | x ∷ xs ↦ (c ∷ x) ∷ xs ]

-- strings.TrimRight at a carriage return
unfoldable pub trim_carriage_returns : Text → Text
trim_carriage_returns [] = []
trim_carriage_returns (c ∷ s) =
    let rest = trim_carriage_returns s in if is_empty rest && eqb c b'\r' then [] else c ∷ rest

-- whether a line ends the params block
abbrev starts_without_blank : Text → Bool
starts_without_blank [] = false
starts_without_blank (c ∷ s) = not (eqb c b' ')

-- the lines up to the end that paramsBlockRange finds
unfoldable pub until_block_end : List Text → List Text
until_block_end [] = []
until_block_end (l ∷ ls) =
    let rest = until_block_end ls in
    if starts_without_blank (trim_carriage_returns l) then [] else l ∷ rest

-- paramsBlockRange: the lines inside of the block; `none` for the index -1
unfoldable pub params_block : List Text → Option (List Text)
params_block [] = none
params_block (l ∷ ls) =
    let rest = params_block ls in
    if trim_carriage_returns l == codes "params:" then some (until_block_end ls) else rest

unfoldable pub leading_spaces : Text → ℕ
leading_spaces [] = 0
leading_spaces (c ∷ s) = let rest = leading_spaces s in if eqb c b' ' then suc rest else 0

-- whether paramsChildIndent looks at the indent of a line
unfoldable pub counts_for_indent : Text → Bool
counts_for_indent l =
    let trimmed = trim_space l in
    if is_empty trimmed || has_prefix (codes "#") trimmed
    then false
    else elim (cut (codes ":") trimmed) [
      | none ↦ false
      | some (key, value) ↦ not (is_empty (trim_space key))
    ]

-- one turn of the loop of paramsChildIndent; 0 is its -1, as no counted indent is 0
unfoldable pub smaller_indent : ℕ → Text → ℕ
smaller_indent best raw =
    let l = trim_carriage_returns raw in
    let indent = leading_spaces l in
    if not (counts_for_indent l) || eqb indent 0
    then best
    else if eqb best 0 || ltb indent best
    then indent
    else best

-- paramsChildIndent, from the best indent so far
unfoldable pub params_child_indent : ℕ → List Text → ℕ
params_child_indent best [] = best
params_child_indent best (l ∷ ls) = params_child_indent (smaller_indent best l) ls

-- directParamsChild
unfoldable pub direct_params_child : Text → ℕ → Option (Text × Text)
direct_params_child raw child_indent =
    let l = trim_carriage_returns raw in
    if eqb child_indent 0 || not (eqb (leading_spaces l) child_indent)
    then none
    else elim (cut (codes ":") (trim_space l)) [
      | none ↦ none
      | some (before, after) ↦
          let key = trim_space before in
          if is_empty key || has_prefix (codes "#") key then none else some (key, trim_space after)
    ]

-- one turn of the loop of DecodeEnvelopeMetadata
unfoldable pub read_line : ℕ → Metadata → Text → Metadata
read_line child_indent m l = elim (direct_params_child l child_indent) [
  | none ↦ m
  | some (key, value) ↦ elim (lookup key field_keys) [ none ↦ m | some f ↦ set_field f value m ]
]

unfoldable pub read_lines : ℕ → Metadata → List Text → Metadata
read_lines child_indent m [] = m
read_lines child_indent m (l ∷ ls) = read_lines child_indent (read_line child_indent m l) ls

-- the params block of a frontmatter, read into metadata
unfoldable pub read_block : Text → Metadata → Metadata
read_block frontmatter m = elim (params_block (split_lines frontmatter)) [
  | none ↦ m
  | some ls ↦ read_lines (params_child_indent 0 ls) m ls
]

unfoldable pub decode_envelope_metadata : Text → Text → Result EnvelopeError Metadata
decode_envelope_metadata frontmatter body =
    let m = read_block frontmatter (only_body (trim_space body)) in
    if is_empty m.from || is_empty m.to then err missing_from_or_to else ok m

unfoldable pub parse_metadata : Text → Result EnvelopeError Metadata
parse_metadata content = elim (scan_frontmatter content) [
  | err x ↦ err x
  | ok none ↦ err no_frontmatter
  | ok (some (frontmatter, body)) ↦ decode_envelope_metadata frontmatter body
]

-- BodyFromContent
unfoldable pub body_from_content : Text → Text
body_from_content content = elim (scan_frontmatter content) [
  | err x ↦ trim_space content
  | ok none ↦ trim_space content
  | ok (some (frontmatter, body)) ↦ trim_space body
]
