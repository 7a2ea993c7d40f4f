-- ===== src/Base/Strings.antt =====
-- Go strings. A Go string is a sequence of bytes, so a text is a list of numbers; a literal is
-- written `codes "…"`.
use Prim.Native.Nat.{ℕ}
use Prim.Native.Char.{code}
use Prim.Native.String.{String}
use mathlib.Core.Path.{◌≡◌, refl, subst}
use mathlib.Core.Logic.{◌↔◌, ◌≢◌, ◌⊎◌, inl, inr}
use mathlib.Core.Bool.{Bool, true, false, ◌&&◌}
use mathlib.Core.List.{List, [], ◌∷◌}
use mathlib.Core.Option.{Option, none, some}
use native.Mathlib.Omega.{arith}
use tmux_a2a_postman.Base.Test.{eqb, ltb, if◌then◌else◌}

abbrev pub Text : Type 0
Text = List ℕ

abbrev pub codes : String → Text
codes String.[] = []
codes (String.◌∷◌ c s) = code c ∷ codes s

infix 50 ◌==◌
unfoldable pub ◌==◌ : Text → Text → Bool
[] == [] = true
[] == (y ∷ ys) = false
(x ∷ xs) == [] = false
(x ∷ xs) == (y ∷ ys) = eqb x y && (xs == ys)

pub eq_of_beq : (s t : Text) → (s == t) ≡ true → s ≡ t
unfolding ◌==◌
eq_of_beq [] [] h = refl
eq_of_beq [] (y ∷ ys) h = ground arith
eq_of_beq (x ∷ xs) [] h = ground arith
eq_of_beq (x ∷ xs) (y ∷ ys) h = ground (arith, eq_of_beq xs ys)

pub beq_refl : (s : Text) → (s == s) ≡ true
unfolding ◌==◌
beq_refl [] = refl
beq_refl (x ∷ xs) = ground (arith, beq_refl xs)

pub beq_iff : (s t : Text) → ((s == t) ≡ true) ↔ (s ≡ t)
beq_iff s t = (eq_of_beq s t, λ p. subst (λ u. (s == u) ≡ true) p (beq_refl s))

pub beq_false : (s t : Text) → s ≢ t → (s == t) ≡ false
beq_false s t h = ground (arith, eq_of_beq s t)

pub ne_of_beq : (s t : Text) → (s == t) ≡ false → s ≢ t
ne_of_beq s t h e = ground (arith, h, beq_iff s t, e)

abbrev pub is_empty : Text → Bool
is_empty [] = true
is_empty (x ∷ xs) = false

-- strings.HasPrefix, with the prefix first
unfoldable pub has_prefix : Text → Text → Bool
has_prefix [] s = true
has_prefix (p ∷ ps) [] = false
has_prefix (p ∷ ps) (c ∷ s) = eqb p c && has_prefix ps s

-- strings.Contains, with the substring first
unfoldable pub contains : Text → Text → Bool
unfolding has_prefix
contains p [] = has_prefix p []
contains p (c ∷ s) = let rest = contains p s in if has_prefix p (c ∷ s) then true else rest

-- whether a byte stands in a text: strings.ContainsRune at an ASCII rune
unfoldable pub contains_byte : ℕ → Text → Bool
contains_byte b [] = false
contains_byte b (c ∷ s) = let rest = contains_byte b s in if eqb b c then true else rest

-- the lexicographic order of bytes, Go's `<`
unfoldable pub text_lt : Text → Text → Bool
text_lt [] [] = false
text_lt [] (y ∷ ys) = true
text_lt (x ∷ xs) [] = false
text_lt (x ∷ xs) (y ∷ ys) = let rest = text_lt xs ys in if eqb x y then rest else ltb x y

-- a step of sort.Strings
unfoldable pub insert_text : Text → List Text → List Text
insert_text s [] = s ∷ []
insert_text s (x ∷ xs) = let rest = insert_text s xs in if text_lt x s then x ∷ rest else s ∷ x ∷ xs

-- the text behind as many bytes as the first text has
unfoldable pub drop_length : Text → Text → Text
drop_length [] s = s
drop_length (p ∷ ps) [] = []
drop_length (p ∷ ps) (c ∷ s) = drop_length ps s

-- strings.Index and the two slices at its result: the text before the first occurrence and behind it
unfoldable pub cut : Text → Text → Option (Text × Text)
unfolding has_prefix drop_length
cut p [] = if has_prefix p [] then some ([], []) else none
cut p (c ∷ s) =
    let rest = cut p s in
    if has_prefix p (c ∷ s)
    then some ([], drop_length p (c ∷ s))
    else elim rest [ none ↦ none | some (x, y) ↦ some (c ∷ x, y) ]

-- strings.HasSuffix and strings.TrimSuffix in one: what stands before the suffix
unfoldable pub strip_suffix : Text → Text → Option Text
strip_suffix p [] = if [] == p then some [] else none
strip_suffix p (c ∷ s) =
    let rest = strip_suffix p s in
    if (c ∷ s) == p then some [] else elim rest [ none ↦ none | some x ↦ some (c ∷ x) ]

infixl 5 ◌>>=◌
abbrev pub ◌>>=◌ {ℓ κ} : {A : Type ℓ} {B : Type κ} → Option A → (A → Option B) → Option B
none >>= f = none
some a >>= f = f a

pub Option-cases {ℓ} : {A : Type ℓ} (o : Option A) → (o ≡ none) ⊎ ((x : A) × (o ≡ some x))
Option-cases none = inl refl
Option-cases (some x) = inr (x, refl)
