-- ===== src/Base/Dicts.antt =====
-- Go maps with string keys, as association lists. A write to a present key replaces its value in
-- place, so a key stands at most once.
use Prim.Native.Nat.{ℕ, suc, ◌+◌}
use mathlib.Core.Path.{◌≡◌, refl}
use mathlib.Core.Logic.{◌≢◌}
use mathlib.Core.Bool.{Bool, true, false}
use mathlib.Core.List.{List, [], ◌∷◌}
use mathlib.Core.Option.{Option, none, some}
use native.Mathlib.Omega.{arith}
use tmux_a2a_postman.Base.Test.{if◌then◌else◌}
use tmux_a2a_postman.Base.Strings.{Text, ◌==◌, beq_iff, beq_refl}

abbrev pub Map {ℓ} : Type ℓ → Type ℓ
Map V = List (Text × V)

module _ {ℓ} {V : Type ℓ} where
  -- v, ok := m[k]
  unfoldable pub lookup : Text → Map V → Option V
  lookup k [] = none
  lookup k ((j, v) ∷ m) = if j == k then some v else lookup k m

  -- m[k] = v
  unfoldable pub insert : Text → V → Map V → Map V
  insert k v [] = (k, v) ∷ []
  insert k v ((j, w) ∷ m) = if j == k then (k, v) ∷ m else (j, w) ∷ insert k v m

  -- delete(m, k)
  unfoldable pub delete : Text → Map V → Map V
  delete k [] = []
  delete k ((j, w) ∷ m) = let rest = delete k m in if j == k then rest else (j, w) ∷ rest

  abbrev pub has_key : Text → Map V → Bool
  has_key k m = elim (lookup k m) [ none ↦ false | some v ↦ true ]

  pub lookup-insert :
      (k wanted : Text) (v : V) (m : Map V)
      → lookup wanted (insert k v m) ≡ (if k == wanted then some v else lookup wanted m)
  unfolding lookup insert
  lookup-insert k wanted v [] = refl
  lookup-insert k wanted v ((at, held) ∷ m) =
      ground (arith, beq_iff k wanted, beq_iff at k, beq_iff at wanted, lookup-insert k wanted v m)

  pub lookup-delete :
      (k j : Text) (m : Map V) → lookup j (delete k m) ≡ (if k == j then none else lookup j m)
  unfolding lookup delete
  lookup-delete k j [] = ground arith
  lookup-delete k j ((i, w) ∷ m) =
      ground (arith, beq_iff k j, beq_iff i k, beq_iff i j, lookup-delete k j m)

  pub lookup-insert_self : (k : Text) (v : V) (m : Map V) → lookup k (insert k v m) ≡ some v
  lookup-insert_self k v m = simp (lookup-insert, beq_refl)

  pub lookup-delete_self : (k : Text) (m : Map V) → lookup k (delete k m) ≡ none
  lookup-delete_self k m = simp (lookup-delete, beq_refl)

  pub lookup-delete_other : (k j : Text) (m : Map V) → k ≢ j → lookup j (delete k m) ≡ lookup j m
  lookup-delete_other k j m h = ground (arith, lookup-delete k j m, beq_iff k j)

  pub lookup-insert_other :
      (k j : Text) (v : V) (m : Map V) → k ≢ j → lookup j (insert k v m) ≡ lookup j m
  lookup-insert_other k j v m h = ground (arith, lookup-insert k j v m, beq_iff k j)

  -- how many values pass a test
  unfoldable pub count_values : (V → Bool) → Map V → ℕ
  count_values p [] = 0
  count_values p ((j, v) ∷ m) = let rest = count_values p m in if p v then suc rest else rest

  -- 1 if the present value passes the test, and 0 otherwise
  abbrev pub tally : (V → Bool) → Option V → ℕ
  tally p none = 0
  tally p (some v) = if p v then 1 else 0

  pub count_values-insert :
      (p : V → Bool) (k : Text) (v : V) (m : Map V)
      → count_values p (insert k v m) + tally p (lookup k m)
        ≡ count_values p m + (if p v then 1 else 0)
  unfolding count_values insert lookup
  count_values-insert p k v [] = ground arith
  count_values-insert p k v ((j, w) ∷ m) = ground (arith, count_values-insert p k v m)

  -- no key stands twice
  abbrev pub NodupKeys : Map V → Type 0
  NodupKeys [] = Unit {0}
  NodupKeys ((j, v) ∷ m) = (has_key j m ≡ false) × NodupKeys m

  pub insert-NodupKeys : (k : Text) (v : V) (m : Map V) → NodupKeys m → NodupKeys (insert k v m)
  unfolding insert lookup
  insert-NodupKeys k v [] h = (refl, tt)
  insert-NodupKeys k v ((j, w) ∷ m) h =
      ground (arith, beq_iff j k, beq_iff k j, lookup-insert k j v m, insert-NodupKeys k v m)

  pub delete-NodupKeys : (k : Text) (m : Map V) → NodupKeys m → NodupKeys (delete k m)
  unfolding delete lookup
  delete-NodupKeys k [] h = tt
  delete-NodupKeys k ((j, w) ∷ m) h =
      ground (arith, beq_iff j k, beq_iff k j, lookup-delete k j m, delete-NodupKeys k m)

  delete_absent :
      (p : V → Bool) (k : Text) (m : Map V)
      → has_key k m ≡ false
      → count_values p (delete k m) ≡ count_values p m
  unfolding delete lookup count_values
  delete_absent p k [] h = refl
  delete_absent p k ((j, w) ∷ m) h = ground (arith, delete_absent p k m)

  pub count_values-delete :
      (p : V → Bool) (k : Text) (m : Map V)
      → NodupKeys m
      → count_values p (delete k m) + tally p (lookup k m) ≡ count_values p m
  unfolding delete lookup count_values
  count_values-delete p k [] h = refl
  count_values-delete p k ((j, w) ∷ m) h =
      ground (arith, beq_iff j k, delete_absent p k m, count_values-delete p k m)
