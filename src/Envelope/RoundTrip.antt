-- ===== src/Envelope/RoundTrip.antt =====
-- A message that is written with a params block is read back as what was written.
use tmux_a2a_postman.Base.{
  true, ◌||◌, Option, none, some, Text, codes, List, [], ◌∷◌, ◌++◌, ◌≡◌, refl, ◌==◌, is_empty,
  has_prefix, if◌then◌else◌, cut, trim_space, all, arith, drop_length, lookup, Result, ok, err, ap,
  ◌∙◌,
}
use tmux_a2a_postman.Envelope.{
  Metadata, only_body, field_keys, set_field, EnvelopeError, missing_from_or_to, no_frontmatter,
}
use tmux_a2a_postman.Envelope.Reading.{
  scan_frontmatter, split_lines, trim_carriage_returns, until_block_end, params_block,
  params_child_indent, read_line, read_lines, read_block, decode_envelope_metadata, parse_metadata,
}
use tmux_a2a_postman.Envelope.Lines.{
  is_line_byte, IsValue, IsKey, param_line, param_line-one_line, trim_carriage_returns_kept,
  direct_params_child-param_line, smaller_indent-param_line,
}

-- the fields of a message, each with its key
abbrev pub Params : Type 0
Params = List (Text × Text)

abbrev pub AreParams : Params → Type 0
AreParams [] = Unit {0}
AreParams ((k, v) ∷ ps) = IsKey k × IsValue v × AreParams ps

abbrev lines_of : Params → List Text
lines_of [] = []
lines_of ((k, v) ∷ ps) = param_line k v ∷ lines_of ps

-- the lines, each behind a line feed, and what stands behind them
abbrev pub with_lines : Params → Text → Text
with_lines [] tail = tail
with_lines ((k, v) ∷ ps) tail = b'\n' ∷ param_line k v ++ with_lines ps tail

-- the text of a message
abbrev pub params_text : Params → Text → Text
params_text ps body = codes "---\nparams:" ++ with_lines ps (codes "\n---" ++ body)

-- what the fields set, in their order
unfoldable pub set_params : Params → Metadata → Metadata
set_params [] m = m
set_params ((k, v) ∷ ps) m =
    set_params ps (elim (lookup k field_keys) [ none ↦ m | some f ↦ set_field f v m ])

-- what stands before the end of the frontmatter is passed over
cut_line :
    (l rest x y : Text)
    → all is_line_byte l ≡ true
    → cut (codes "\n---") rest ≡ some (x, y)
    → cut (codes "\n---") (l ++ rest) ≡ some (l ++ x, y)
unfolding cut has_prefix all
cut_line [] rest x y h e = e
cut_line (c ∷ l) rest x y h e = ground (arith, cut_line l rest x y)

cut_feed :
    (s x y : Text)
    → cut (codes "\n---") (b' ' ∷ s) ≡ some (x, y)
    → cut (codes "\n---") (b'\n' ∷ b' ' ∷ s) ≡ some (b'\n' ∷ x, y)
unfolding has_prefix
cut_feed s x y e = unfold cut in rw e refl

cut_lines :
    (ps : Params) (body : Text)
    → AreParams ps
    → cut (codes "\n---") (with_lines ps (codes "\n---" ++ body)) ≡ some (with_lines ps [], body)
cut_lines [] body h = unfold cut has_prefix drop_length in refl
cut_lines ((k, v) ∷ ps) body (hk, hv, h) =
    cut_feed (b' ' ∷ (k ++ b':' ∷ b' ' ∷ v) ++ with_lines ps (codes "\n---" ++ body)) _ body (
      cut_line (param_line k v) (with_lines ps (codes "\n---" ++ body)) (with_lines ps []) body
        (param_line-one_line k v hk hv) (cut_lines ps body h))

split_line :
    (l : Text) (s : Text)
    → all is_line_byte l ≡ true
    → split_lines (l ++ b'\n' ∷ s) ≡ l ∷ split_lines s
unfolding split_lines all
split_line [] s h = refl
split_line (c ∷ l) s h = ground (arith, split_line l s)

split_last : (l : Text) → all is_line_byte l ≡ true → split_lines (l ++ []) ≡ l ∷ []
unfolding split_lines all
split_last [] h = refl
split_last (c ∷ l) h = ground (arith, split_last l)

split_all :
    (l : Text) (ps : Params)
    → all is_line_byte l ≡ true
    → AreParams ps
    → split_lines (l ++ with_lines ps []) ≡ l ∷ lines_of ps
split_all l [] h ha = split_last l h
split_all l ((k, v) ∷ ps) h (hk, hv, ha) =
    split_line l (param_line k v ++ with_lines ps []) h
    ∙ ap (λ t. l ∷ t) (split_all (param_line k v) ps (param_line-one_line k v hk hv) ha)

until_block_end_all : (ps : Params) → AreParams ps → until_block_end (lines_of ps) ≡ lines_of ps
unfolding until_block_end
until_block_end_all [] h = refl
until_block_end_all ((k, v) ∷ ps) (hk, hv, h) =
    rw
      (
        trim_carriage_returns_kept (param_line k v) (param_line-one_line k v hk hv),
        until_block_end_all ps h,
      )
      refl

params_block_all :
    (ps : Params) → AreParams ps → params_block (codes "params:" ∷ lines_of ps) ≡ some (lines_of ps)
unfolding params_block trim_carriage_returns ◌==◌
params_block_all ps h = rw (until_block_end_all ps h) refl

child_indent_all : (ps : Params) → AreParams ps → params_child_indent 2 (lines_of ps) ≡ 2
unfolding params_child_indent
child_indent_all [] h = refl
child_indent_all ((k, v) ∷ ps) (hk, hv, h) =
    ap (λ i. params_child_indent i (lines_of ps)) (smaller_indent-param_line 2 k v hk hv)
    ∙ child_indent_all ps h

-- what read_line does with the field of a line
abbrev read_entry : Metadata → Option (Text × Text) → Metadata
read_entry m o = elim o [
  | none ↦ m
  | some (key, value) ↦ elim (lookup key field_keys) [ none ↦ m | some f ↦ set_field f value m ]
]

read_lines_all :
    (ps : Params) (m : Metadata) → AreParams ps → read_lines 2 m (lines_of ps) ≡ set_params ps m
unfolding read_lines read_line set_params
read_lines_all [] m h = refl
read_lines_all ((k, v) ∷ ps) m (hk, hv, h) =
    ap (λ o. read_lines 2 (read_entry m o) (lines_of ps)) (direct_params_child-param_line k v hk hv)
    ∙ read_lines_all ps _ h

opening :
    (ps : Params) (body : Text)
    → cut (codes "---\n") (params_text ps body)
      ≡ some ([], codes "params:" ++ with_lines ps (codes "\n---" ++ body))
unfolding cut has_prefix drop_length
opening ps body = refl

scan_params :
    (ps : Params) (body : Text)
    → AreParams ps
    → scan_frontmatter (params_text ps body) ≡ ok (some (codes "params:" ++ with_lines ps [], body))
unfolding scan_frontmatter
scan_params ps body h =
    let q : cut (codes "\n---") (codes "params:" ++ with_lines ps (codes "\n---" ++ body))
        ≡ some (codes "params:" ++ with_lines ps [], body) =
      cut_line (codes "params:") (with_lines ps (codes "\n---" ++ body)) (with_lines ps []) body
        (unfold all in refl) (cut_lines ps body h) in
    ground (arith, opening ps body)

read_params :
    (k v : Text) (ps : Params) (m : Metadata)
    → AreParams ((k, v) ∷ ps)
    → read_block (codes "params:" ++ with_lines ((k, v) ∷ ps) []) m ≡ set_params ((k, v) ∷ ps) m
unfolding read_block params_child_indent
read_params k v ps m (hk, hv, h) =
    let qs : Params = (k, v) ∷ ps in
    let block : params_block (split_lines (codes "params:" ++ with_lines qs []))
        ≡ some (lines_of qs) =
      ap params_block (split_all (codes "params:") qs (unfold all in refl) (hk, hv, h))
      ∙ params_block_all qs (hk, hv, h) in
    let indent : params_child_indent 0 (lines_of qs) ≡ 2 =
      ap (λ i. params_child_indent i (lines_of ps)) (smaller_indent-param_line 0 k v hk hv)
      ∙ child_indent_all ps h in
    ap (λ o. elim o [ none ↦ m | some ls ↦ read_lines (params_child_indent 0 ls) m ls ]) block
    ∙ (ap (λ i. read_lines i m (lines_of qs)) indent ∙ read_lines_all qs m (hk, hv, h))

-- what parse_metadata does with a scan, and with the fields that it reads
abbrev pub checked : Metadata → Result EnvelopeError Metadata
checked m = if is_empty m.from || is_empty m.to then err missing_from_or_to else ok m

abbrev parsed : Result EnvelopeError (Option (Text × Text)) → Result EnvelopeError Metadata
parsed r = elim r [
  | err x ↦ err x
  | ok none ↦ err no_frontmatter
  | ok (some (frontmatter, body)) ↦ decode_envelope_metadata frontmatter body
]

-- A message that is written with a params block, one field to a line, is read as exactly these
-- fields, whatever its body is: no value sets another field.
pub parse_metadata-params_text :
    (k v : Text) (ps : Params) (body : Text)
    → AreParams ((k, v) ∷ ps)
    → let m = set_params ((k, v) ∷ ps) (only_body (trim_space body)) in
      parse_metadata (params_text ((k, v) ∷ ps) body)
      ≡ (if is_empty m.from || is_empty m.to then err missing_from_or_to else ok m)
unfolding parse_metadata decode_envelope_metadata
parse_metadata-params_text k v ps body h =
    ap (λ r. parsed r) (scan_params ((k, v) ∷ ps) body h)
    ∙ ap checked (read_params k v ps (only_body (trim_space body)) h)
