-- ===== src/Filename/Cutting.antt =====
-- Finding a delimiter and a tag again: ParseMessageFilename of internal/message/message.go.
use mathlib.Core.List.{append_assoc}
use tmux_a2a_postman.Base.{
  ℕ, ◌≤◌, true, false, not, ◌&&◌, none, some, Text, [], ◌∷◌, ◌++◌, eqb, has_prefix, contains, cut,
  drop_length, strip_suffix, length, length-append, arith, ◌≡◌, refl, ap, ◌∙◌, subst, ◌==◌,
  eq_of_beq, beq_refl, Bool-cases, inl, inr, all,
}
use tmux_a2a_postman.Filename.{match_tag, find_tag}
use tmux_a2a_postman.Address.Codec.{is_lower_hex_byte}

has_prefix-long : (p s t : Text) → length p ≤ length s → has_prefix p (s ++ t) ≡ has_prefix p s
unfolding has_prefix
has_prefix-long [] s t h = refl
has_prefix-long (p ∷ ps) [] t h = absurd (omega arith)
has_prefix-long (p ∷ ps) (c ∷ s) t h = ap (λ b. eqb p c && b) (has_prefix-long ps s t (omega arith))

has_prefix-append : (p t : Text) → (has_prefix p (p ++ t) ≡ true) × (drop_length p (p ++ t) ≡ t)
unfolding has_prefix drop_length
has_prefix-append [] t = (refl, refl)
has_prefix-append (c ∷ p) t = ground (arith, has_prefix-append p t)

cut_here : (p s : Text) → has_prefix p s ≡ true → cut p s ≡ some ([], drop_length p s)
unfolding cut drop_length has_prefix
cut_here [] [] h = refl
cut_here (c ∷ p) [] h = absurd cc
cut_here p (x ∷ s) h = ground (arith, h)

-- A delimiter is found where it was put, if it does not stand earlier, were it to overlap with itself.
pub cut-append :
    (p : Text) (d : ℕ) (x y : Text)
    → contains (p ++ d ∷ []) (x ++ p) ≡ false
    → cut (p ++ d ∷ []) (x ++ (p ++ d ∷ y)) ≡ some (x, y)
unfolding cut contains
cut-append p d [] y h =
    let whole : (p ++ d ∷ []) ++ y ≡ p ++ d ∷ y = append_assoc p (d ∷ []) y in
    let f = has_prefix-append (p ++ d ∷ []) y in
    subst (λ s. cut (p ++ d ∷ []) s ≡ some ([], y)) whole
      (cut_here (p ++ d ∷ []) ((p ++ d ∷ []) ++ y) f.0 ∙ ap (λ z. some ([], z)) f.1)
cut-append p d (c ∷ x) y h =
    let whole : (x ++ p) ++ d ∷ y ≡ x ++ (p ++ d ∷ y) = append_assoc x p (d ∷ y) in
    let here : has_prefix (p ++ d ∷ []) (c ∷ (x ++ p)) ≡ false = ground (arith, h) in
    let later : contains (p ++ d ∷ []) (x ++ p) ≡ false = ground (arith, h, here) in
    let long : length (p ++ d ∷ []) ≤ length (c ∷ (x ++ p)) =
      omega (arith, length-append p (d ∷ []), length-append x p) in
    let not_here : has_prefix (p ++ d ∷ []) (c ∷ (x ++ (p ++ d ∷ y))) ≡ false =
      subst (λ s. has_prefix (p ++ d ∷ []) (c ∷ s) ≡ false) whole
        (has_prefix-long (p ++ d ∷ []) (c ∷ (x ++ p)) (d ∷ y) long ∙ here) in
    ground (arith, not_here, cut-append p d x y later)

longer : (c : ℕ) (x p : Text) → (((c ∷ x) ++ p) == p) ≡ false
longer c x p = elim (Bool-cases (((c ∷ x) ++ p) == p)) [
  | inr h ↦ h
  | inl h ↦
      let same = ap length (eq_of_beq ((c ∷ x) ++ p) p h) in
      absurd (omega (arith, same, length-append (c ∷ x) p))
]

-- A suffix is stripped where it was put.
pub strip_suffix-append : (x : Text) (c : ℕ) (p : Text) → strip_suffix (c ∷ p) (x ++ c ∷ p) ≡ some x
unfolding strip_suffix
strip_suffix-append [] c p = ground (arith, beq_refl (c ∷ p))
strip_suffix-append (a ∷ x) c p = ground (arith, longer a x (c ∷ p), strip_suffix-append x c p)

match_tag_long :
    (tag c : ℕ) (x : Text) (e f g h i j : ℕ)
    → match_tag tag (c ∷ (x ++ e ∷ f ∷ g ∷ h ∷ i ∷ j ∷ [])) ≡ none
unfolding match_tag
match_tag_long tag c [] e f g h i j = refl
match_tag_long tag c (_ ∷ []) e f g h i j = refl
match_tag_long tag c (_ ∷ _ ∷ []) e f g h i j = refl
match_tag_long tag c (_ ∷ _ ∷ _ ∷ []) e f g h i j = refl
match_tag_long tag c (_ ∷ _ ∷ _ ∷ _ ∷ []) e f g h i j = refl
match_tag_long tag c (_ ∷ _ ∷ _ ∷ _ ∷ _ ∷ []) e f g h i j = refl
match_tag_long tag c (_ ∷ _ ∷ _ ∷ _ ∷ _ ∷ _ ∷ x) e f g h i j = refl

-- A tag with four lowercase hexadecimal digits is found where it was put.
pub find_tag-append :
    (tag : ℕ) (x : Text) (g h i j : ℕ)
    → all is_lower_hex_byte (g ∷ h ∷ i ∷ j ∷ []) ≡ true
    → find_tag tag (x ++ b'-' ∷ tag ∷ g ∷ h ∷ i ∷ j ∷ []) ≡ some (x, g ∷ h ∷ i ∷ j ∷ [])
unfolding find_tag
find_tag-append tag [] g h i j e = unfold match_tag in ground (arith, e)
find_tag-append tag (c ∷ x) g h i j e =
    ground (arith, match_tag_long tag c x b'-' tag g h i j, find_tag-append tag x g h i j e)

match_tag-none :
    (tag c : ℕ) (s : Text)
    → all (λ b. not (eqb b tag)) (c ∷ s) ≡ true
    → match_tag tag (c ∷ s) ≡ none
unfolding match_tag all
match_tag-none tag c [] h = refl
match_tag-none tag c (_ ∷ []) h = refl
match_tag-none tag c (_ ∷ _ ∷ []) h = refl
match_tag-none tag c (_ ∷ _ ∷ _ ∷ []) h = refl
match_tag-none tag c (_ ∷ _ ∷ _ ∷ _ ∷ []) h = refl
match_tag-none tag c (b ∷ x ∷ y ∷ z ∷ w ∷ []) h = ground (arith, h)
match_tag-none tag c (_ ∷ _ ∷ _ ∷ _ ∷ _ ∷ _ ∷ s) h = refl

-- Where no byte is the tag, no tag is found.
pub find_tag-none :
    (tag : ℕ) (s : Text) → all (λ b. not (eqb b tag)) s ≡ true → find_tag tag s ≡ none
unfolding find_tag
find_tag-none tag [] h = refl
find_tag-none tag (c ∷ s) h =
    let rest : all (λ b. not (eqb b tag)) s ≡ true = unfold all in ground (arith, h) in
    ground (arith, match_tag-none tag c s h, find_tag-none tag s rest)
