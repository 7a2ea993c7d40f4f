-- ===== src/Base/Members.antt =====
-- The members of a filtered list.
use mathlib.Core.Path.{subst, ◌≡◌, sym, ap, ◌∙◌}
use mathlib.Core.Logic.{inl, inr}
use mathlib.Core.Bool.{Bool, true, false}
use mathlib.Core.List.{List, [], ◌∷◌, Memᴰ}
use mathlib.Core.List.Memᴰ
use native.Mathlib.Omega.{arith}
use tmux_a2a_postman.Base.Lists.{filter, all}
use tmux_a2a_postman.Base.Test.{if◌then◌else◌, Bool-cases}

module _ {ℓ} {A : Type ℓ} where
  pub member_cons :
      (p : A → Bool) (x y : A) (ys : List A) → Memᴰ x ys → Memᴰ x (if p y then y ∷ ys else ys)
  member_cons p x y ys m = elim (p y) as (λ b. Memᴰ x (if b then y ∷ ys else ys)) [
    | true ↦ Memᴰ.tail m
    | false ↦ m
  ]

  pub member-filter :
      (p : A → Bool) (x : A) (xs : List A) → Memᴰ x xs → p x ≡ true → Memᴰ x (filter p xs)
  unfolding filter
  member-filter p x [] m h = absurd (Memᴰ.not-nil m)
  member-filter p x (y ∷ ys) (Memᴰ.head e) h =
      subst (λ b. Memᴰ x (if b then y ∷ filter p ys else filter p ys)) (sym h ∙ ap p e)
        (Memᴰ.head e)
  member-filter p x (y ∷ ys) (Memᴰ.tail m) h =
      member_cons p x y (filter p ys) (member-filter p x ys m h)

  pub filter-member :
      (p : A → Bool) (x : A) (xs : List A) → Memᴰ x (filter p xs) → Memᴰ x xs × (p x ≡ true)
  unfolding filter
  filter-member p x [] m = absurd (Memᴰ.not-nil m)
  filter-member p x (y ∷ ys) m = elim (Bool-cases (p y)) [
    | inl h ↦ elim (subst (λ b. Memᴰ x (if b then y ∷ filter p ys else filter p ys)) h m) [
      | Memᴰ.head e ↦ (Memᴰ.head e, ap p e ∙ h)
      | Memᴰ.tail k ↦ let r = filter-member p x ys k in (Memᴰ.tail r.0, r.1)
    ]
    | inr h ↦
        let r =
          filter-member p x ys
            (subst (λ b. Memᴰ x (if b then y ∷ filter p ys else filter p ys)) h m) in
        (Memᴰ.tail r.0, r.1)
  ]

  pub member_single : {x y : A} → Memᴰ x (y ∷ []) → x ≡ y
  member_single m = Memᴰ.eq_of_singleton m

  pub all-member : (p : A → Bool) (x : A) (xs : List A) → Memᴰ x xs → all p xs ≡ true → p x ≡ true
  unfolding all
  all-member p x [] m h = absurd (Memᴰ.not-nil m)
  all-member p x (y ∷ ys) (Memᴰ.head e) h = ap p e ∙ (ground arith)
  all-member p x (y ∷ ys) (Memᴰ.tail m) h = all-member p x ys m (ground arith)
