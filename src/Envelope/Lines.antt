-- ===== src/Envelope/Lines.antt =====
-- The lines of a params block, as they are written and as they are read.
use tmux_a2a_postman.Base.{
  Bool, true, false, not, ◌&&◌, ◌||◌, some, Text, codes, [], ◌∷◌, ◌++◌, ◌≡◌, refl, is_empty,
  has_prefix, if◌then◌else◌, eqb, ltb, ℕ, cut, trim_space, all, arith, is_visible, trim_space_blank,
  trim_space_visible, trim_space_words, drop_length, subst,
}
use mathlib.Core.List.{append_assoc}
use tmux_a2a_postman.Envelope.Reading.{
  trim_carriage_returns, leading_spaces, counts_for_indent, smaller_indent, direct_params_child,
}

-- a byte that may stand in a key
abbrev pub is_key_byte : ℕ → Bool
is_key_byte c = is_visible c && (not (eqb c b':') && not (eqb c b'#'))

-- a byte that does not end a line
abbrev pub is_line_byte : ℕ → Bool
is_line_byte c = not (eqb c b'\n') && not (eqb c b'\r')

-- A value that can stand on a line
pub record IsValue (v : Text) : Type 0 where
  pub nonempty : is_empty v ≡ false
  pub trimmed : trim_space v ≡ v
  pub one_line : all is_line_byte v ≡ true

pub record IsKey (k : Text) : Type 0 where
  pub named : is_empty k ≡ false
  pub plain : all is_key_byte k ≡ true

-- a line of the block
abbrev pub param_line : Text → Text → Text
param_line k v = b' ' ∷ b' ' ∷ k ++ b':' ∷ b' ' ∷ v

all_mono :
    (s : Text) → all is_key_byte s ≡ true → (all is_visible s ≡ true) × (all is_line_byte s ≡ true)
unfolding all
all_mono [] h = (refl, refl)
all_mono (c ∷ s) h = ground (arith, all_mono s)

all-append : (p : ℕ → Bool) (s t : Text) → all p (s ++ t) ≡ (all p s && all p t)
unfolding all
all-append p [] t = refl
all-append p (c ∷ s) t = ground (arith, all-append p s t)

pub param_line-one_line :
    (k v : Text) → IsKey k → IsValue v → all is_line_byte (param_line k v) ≡ true
unfolding all
param_line-one_line k v hk hv =
    ground (arith, all_mono k hk.plain, all-append is_line_byte k (b':' ∷ b' ' ∷ v), hv.one_line)

pub trim_carriage_returns_kept :
    (s : Text) → all is_line_byte s ≡ true → trim_carriage_returns s ≡ s
unfolding trim_carriage_returns all
trim_carriage_returns_kept [] h = refl
trim_carriage_returns_kept (c ∷ s) h = ground (arith, trim_carriage_returns_kept s)

cut_colon_key :
    (k rest : Text) → all is_key_byte k ≡ true → cut (codes ":") (k ++ b':' ∷ rest) ≡ some (k, rest)
unfolding cut has_prefix drop_length all
cut_colon_key [] rest h = refl
cut_colon_key (c ∷ k) rest h = ground (arith, cut_colon_key k rest)

-- the text of a line without its indent
trimmed_line :
    (k v : Text) → IsKey k → IsValue v → trim_space (param_line k v) ≡ k ++ b':' ∷ b' ' ∷ v
unfolding all
trimmed_line [] v hk hv = let n = hk.named in ground arith
trimmed_line (c ∷ k) v hk hv =
    let p = hk.plain in
    rw (trim_space_blank, trim_space_blank)
      (subst (λ t. trim_space (c ∷ t) ≡ c ∷ t) (append_assoc k (b':' ∷ []) (b' ' ∷ v))
        (trim_space_words c (k ++ b':' ∷ []) v (ground arith) hv.nonempty hv.trimmed))

leading_spaces_line : (k v : Text) → IsKey k → leading_spaces (param_line k v) ≡ 2
unfolding leading_spaces all
leading_spaces_line [] v hk = let n = hk.named in ground arith
leading_spaces_line (c ∷ k) v hk = let p = hk.plain in ground arith

-- a key is neither empty nor a comment
key_head : (k : Text) → IsKey k → (is_empty k ≡ false) × (has_prefix (codes "#") k ≡ false)
unfolding has_prefix all
key_head [] hk = let n = hk.named in ground arith
key_head (c ∷ k) hk = let p = hk.plain in ground arith

-- so is the line that it begins
line_head :
    (k r : Text) → IsKey k → (is_empty (k ++ r) ≡ false) × (has_prefix (codes "#") (k ++ r) ≡ false)
unfolding has_prefix all
line_head [] r hk = let n = hk.named in ground arith
line_head (c ∷ k) r hk = let p = hk.plain in ground arith

-- A line that is written with a key and a value is read as these.
pub direct_params_child-param_line :
    (k v : Text) → IsKey k → IsValue v → direct_params_child (param_line k v) 2 ≡ some (k, v)
unfolding direct_params_child
direct_params_child-param_line k v hk hv =
    let (visible, lines) = all_mono k hk.plain in
    rw
      (
        trim_carriage_returns_kept (param_line k v) (param_line-one_line k v hk hv),
        leading_spaces_line k v hk,
        trimmed_line k v hk hv,
        cut_colon_key k (b' ' ∷ v) hk.plain,
        trim_space_visible k visible,
        trim_space_blank v,
        hv.trimmed,
        (key_head k hk).0,
        (key_head k hk).1,
      )
      refl

pub smaller_indent-param_line :
    (best : ℕ) (k v : Text)
    → IsKey k
    → IsValue v
    → smaller_indent best (param_line k v) ≡ (if eqb best 0 || ltb 2 best then 2 else best)
unfolding smaller_indent counts_for_indent
smaller_indent-param_line best k v hk hv =
    let (visible, lines) = all_mono k hk.plain in
    let rest : Text = b':' ∷ b' ' ∷ v in
    rw
      (
        trim_carriage_returns_kept (param_line k v) (param_line-one_line k v hk hv),
        leading_spaces_line k v hk,
        trimmed_line k v hk hv,
        cut_colon_key k (b' ' ∷ v) hk.plain,
        trim_space_visible k visible,
        (key_head k hk).0,
        (line_head k rest hk).0,
        (line_head k rest hk).1,
      )
      refl
