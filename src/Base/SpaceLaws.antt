-- ===== src/Base/SpaceLaws.antt =====
-- Trimming white space twice is trimming it once, and what trimming keeps.
use mathlib.Core.Path.{◌≡◌, refl, sym, ap, subst, ◌∙◌}
use Prim.Native.Nat.{ℕ}
use mathlib.Core.Bool.{Bool, true, false, ◌||◌, ◌&&◌}
use mathlib.Core.List.{
  [], ◌∷◌, ◌++◌, reverse, reverse_aux, reverse-cons, append_assoc, reverse-append, reverse-reverse,
}
use native.Mathlib.Omega.{arith}
use tmux_a2a_postman.Base.Test.{if◌then◌else◌, ltb}
use tmux_a2a_postman.Base.Strings.{Text, is_empty}
use tmux_a2a_postman.Base.Lists.{all}
use tmux_a2a_postman.Base.Space.{
  is_space, is_space2, is_space3, trim_left, trim_left_rev, trim_space,
}

-- whether a text starts with white space, the second with its bytes in reverse
starts : Text → Bool
starts [] = false
starts (a ∷ []) = is_space a
starts (a ∷ b ∷ []) = is_space a || is_space2 a b
starts (a ∷ b ∷ c ∷ s) = is_space a || (is_space2 a b || is_space3 a b c)

starts_rev : Text → Bool
starts_rev [] = false
starts_rev (a ∷ []) = is_space a
starts_rev (a ∷ b ∷ []) = is_space a || is_space2 b a
starts_rev (a ∷ b ∷ c ∷ s) = is_space a || (is_space2 b a || is_space3 c b a)

starts-append : (s t : Text) → starts (s ++ t) ≡ false → starts s ≡ false
unfolding starts
starts-append [] t h = refl
starts-append (a ∷ []) [] h = h
starts-append (a ∷ []) (b ∷ []) h = ground arith
starts-append (a ∷ []) (b ∷ c ∷ t) h = ground arith
starts-append (a ∷ b ∷ []) [] h = h
starts-append (a ∷ b ∷ []) (c ∷ t) h = ground arith
starts-append (a ∷ b ∷ c ∷ s) t h = h

trim_left-starts : (s : Text) → starts (trim_left s) ≡ false
unfolding starts trim_left
trim_left-starts [] = refl
trim_left-starts (a ∷ []) = ground arith
trim_left-starts (a ∷ b ∷ []) = ground (arith, trim_left-starts (b ∷ []))
trim_left-starts (a ∷ b ∷ c ∷ s) =
    ground (arith, trim_left-starts (b ∷ c ∷ s), trim_left-starts (c ∷ s), trim_left-starts s)

trim_left_fixed : (s : Text) → starts s ≡ false → trim_left s ≡ s
unfolding starts trim_left
trim_left_fixed [] h = refl
trim_left_fixed (a ∷ []) h = ground arith
trim_left_fixed (a ∷ b ∷ []) h = ground arith
trim_left_fixed (a ∷ b ∷ c ∷ s) h = ground arith

trim_left_rev-starts : (s : Text) → starts_rev (trim_left_rev s) ≡ false
unfolding starts_rev trim_left_rev
trim_left_rev-starts [] = refl
trim_left_rev-starts (a ∷ []) = ground arith
trim_left_rev-starts (a ∷ b ∷ []) = ground (arith, trim_left_rev-starts (b ∷ []))
trim_left_rev-starts (a ∷ b ∷ c ∷ s) =
    ground (
      arith,
      trim_left_rev-starts (b ∷ c ∷ s),
      trim_left_rev-starts (c ∷ s),
      trim_left_rev-starts s,
    )

trim_left_rev_fixed : (s : Text) → starts_rev s ≡ false → trim_left_rev s ≡ s
unfolding starts_rev trim_left_rev
trim_left_rev_fixed [] h = refl
trim_left_rev_fixed (a ∷ []) h = ground arith
trim_left_rev_fixed (a ∷ b ∷ []) h = ground arith
trim_left_rev_fixed (a ∷ b ∷ c ∷ s) h = ground arith

-- the bytes that trimming takes away
dropped : Text → Text
dropped [] = []
dropped (a ∷ []) = if is_space a then a ∷ [] else []
dropped (a ∷ b ∷ []) =
    let r = a ∷ dropped (b ∷ []) in
    if is_space a then r else if is_space2 b a then a ∷ b ∷ [] else []
dropped (a ∷ b ∷ c ∷ s) =
    let r = a ∷ dropped (b ∷ c ∷ s) in
    let r2 = a ∷ b ∷ dropped (c ∷ s) in
    let r3 = a ∷ b ∷ c ∷ dropped s in
    if is_space a then r else if is_space2 b a then r2 else if is_space3 c b a then r3 else []

dropped-append : (s : Text) → dropped s ++ trim_left_rev s ≡ s
unfolding dropped trim_left_rev
dropped-append [] = refl
dropped-append (a ∷ []) = ground arith
dropped-append (a ∷ b ∷ []) = ground (arith, dropped-append (b ∷ []))
dropped-append (a ∷ b ∷ c ∷ s) =
    ground (arith, dropped-append (b ∷ c ∷ s), dropped-append (c ∷ s), dropped-append s)

module _ (s : Text) where
  -- what is trimmed at the right end is a suffix of what is trimmed at the left end
  kept_prefix : trim_space s ++ reverse (dropped (reverse (trim_left s))) ≡ trim_left s
  unfolding trim_space
  kept_prefix =
      sym (reverse-append (dropped (reverse (trim_left s))) (trim_left_rev (reverse (trim_left s))))
      ∙ (ap reverse (dropped-append (reverse (trim_left s))) ∙ reverse-reverse (trim_left s))

  starts-trim_space : starts (trim_space s) ≡ false
  starts-trim_space =
      starts-append (trim_space s) (reverse (dropped (reverse (trim_left s))))
        (subst (λ t. starts t ≡ false) (sym kept_prefix) (trim_left-starts s))

  reverse-trim_space : reverse (trim_space s) ≡ trim_left_rev (reverse (trim_left s))
  unfolding trim_space
  reverse-trim_space = reverse-reverse _

  pub trim_space_idem : trim_space (trim_space s) ≡ trim_space s
  trim_space_idem =
      let left = trim_left_fixed (trim_space s) starts-trim_space in
      let right = trim_left_rev_fixed _ (trim_left_rev-starts (reverse (trim_left s))) in
      unfold trim_space in
      ap reverse
        (ap (λ t. trim_left_rev (reverse t)) left ∙ (ap trim_left_rev reverse-trim_space ∙ right))

-- a byte of ASCII that is no white space
abbrev pub is_visible : ℕ → Bool
is_visible c = ltb 32 c && ltb c 127

starts_visible : (c : ℕ) (s : Text) → is_visible c ≡ true → starts (c ∷ s) ≡ false
unfolding starts is_space is_space2 is_space3
starts_visible c [] h = ground arith
starts_visible c (b ∷ []) h = ground arith
starts_visible c (b ∷ d ∷ s) h = ground arith

starts_rev_visible : (s : Text) → all is_visible s ≡ true → starts_rev s ≡ false
unfolding starts_rev is_space is_space2 is_space3 all
starts_rev_visible [] h = refl
starts_rev_visible (a ∷ []) h = ground arith
starts_rev_visible (a ∷ b ∷ []) h = ground arith
starts_rev_visible (a ∷ b ∷ c ∷ s) h = ground arith

trim_left_blank : (s : Text) → trim_left (32 ∷ s) ≡ trim_left s
unfolding trim_left is_space
trim_left_blank [] = refl
trim_left_blank (b ∷ []) = refl
trim_left_blank (b ∷ c ∷ s) = refl

starts_rev-append_blank :
    (x y : Text) → is_empty x ≡ false → starts_rev x ≡ false → starts_rev (x ++ 32 ∷ y) ≡ false
unfolding starts_rev is_space2 is_space3
starts_rev-append_blank [] y e h = ground arith
starts_rev-append_blank (a ∷ []) [] e h = ground arith
starts_rev-append_blank (a ∷ []) (b ∷ y) e h = ground arith
starts_rev-append_blank (a ∷ b ∷ []) y e h = ground arith
starts_rev-append_blank (a ∷ b ∷ c ∷ x) y e h = h

-- A blank in front is trimmed.
pub trim_space_blank : (s : Text) → trim_space (32 ∷ s) ≡ trim_space s
unfolding trim_space
trim_space_blank s = ap (λ t. reverse (trim_left_rev (reverse t))) (trim_left_blank s)

trim_space_kept : (s : Text) → starts s ≡ false → starts_rev (reverse s) ≡ false → trim_space s ≡ s
unfolding trim_space
trim_space_kept s l r =
    ap (λ t. reverse (trim_left_rev (reverse t))) (trim_left_fixed s l)
    ∙ (ap reverse (trim_left_rev_fixed (reverse s) r) ∙ reverse-reverse s)

starts_rev-trimmed : (s : Text) → trim_space s ≡ s → starts_rev (reverse s) ≡ false
starts_rev-trimmed s h =
    subst (λ t. starts_rev (reverse t) ≡ false) h
      (subst (λ t. starts_rev t ≡ false) (sym (reverse-trim_space s)) (trim_left_rev-starts _))

all-reverse :
    (s done : Text)
    → all is_visible s ≡ true
    → all is_visible done ≡ true
    → all is_visible (reverse_aux s done) ≡ true
unfolding all
all-reverse [] done h d = d
all-reverse (c ∷ s) done h d = all-reverse s (c ∷ done) (ground arith) (ground arith)

-- A text of visible bytes has nothing to trim.
pub trim_space_visible : (s : Text) → all is_visible s ≡ true → trim_space s ≡ s
unfolding all starts starts_rev
trim_space_visible [] h = trim_space_kept [] refl refl
trim_space_visible (c ∷ s) h =
    trim_space_kept (c ∷ s) (starts_visible c s (ground arith))
      (starts_rev_visible (reverse (c ∷ s)) (all-reverse (c ∷ s) [] h refl))

reverse_split : (x v : Text) → reverse (x ++ 32 ∷ v) ≡ reverse v ++ 32 ∷ reverse x
reverse_split x v =
    reverse-append x (32 ∷ v)
    ∙ (ap (λ t. t ++ reverse x) (reverse-cons 32 v)
        ∙ append_assoc (reverse v) (32 ∷ []) (reverse x))

append_nonempty : (s : Text) (c : ℕ) → is_empty (s ++ c ∷ []) ≡ false
append_nonempty [] c = refl
append_nonempty (d ∷ s) c = refl

reverse_nonempty : (v : Text) → is_empty v ≡ false → is_empty (reverse v) ≡ false
reverse_nonempty [] e = e
reverse_nonempty (c ∷ v) e =
    subst (λ t. is_empty t ≡ false) (sym (reverse-cons c v)) (append_nonempty (reverse v) c)

-- A text that begins with a visible byte and ends with a blank and a trimmed text has nothing to
-- trim.
pub trim_space_words :
    (c : ℕ) (w v : Text)
    → is_visible c ≡ true
    → is_empty v ≡ false
    → trim_space v ≡ v
    → trim_space (c ∷ w ++ 32 ∷ v) ≡ c ∷ w ++ 32 ∷ v
trim_space_words c w v h e t =
    trim_space_kept (c ∷ w ++ 32 ∷ v) (starts_visible c (w ++ 32 ∷ v) h) ends
  where
    ends : starts_rev (reverse (c ∷ w ++ 32 ∷ v)) ≡ false
    ends =
        subst (λ x. starts_rev x ≡ false) (sym (reverse_split (c ∷ w) v))
          (starts_rev-append_blank (reverse v) (reverse (c ∷ w)) (reverse_nonempty v e)
            (starts_rev-trimmed v t))
