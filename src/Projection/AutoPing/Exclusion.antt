-- ===== src/Projection/AutoPing/Exclusion.antt =====
-- Two workers never hold a reservation of one key.
use tmux_a2a_postman.Base.{
  ◌↔◌, ℕ, suc, ◌+◌, ◌≤◌, true, false, Text, List, [], ◌∷◌, ◌++◌, ◌≡◌, refl, if◌then◌else◌, lookup,
  has_key, arith, beq_iff, lookup-insert, lookup-delete, is_empty, ◌==◌, beq_refl,
}
use tmux_a2a_postman.Projection.AutoPing.{
  WakeIdentity, Active, of_key, try_reserve, release, wake_key,
}

-- how many of the held reservations are of a key
unfoldable pub holders : Text → List Text → ℕ
holders k [] = 0
holders k (h ∷ hs) = let rest = holders k hs in if h == k then suc rest else rest

-- What is active and the keys that workers hold: a worker reserves, and releases once.
pub data Reachable : Active → List Text → Type 0 where
  initially : Reachable [] []
  reserve :
      (a a' : Active) (hs : List Text) (i : WakeIdentity) (k : Text)
      → Reachable a hs
      → try_reserve i a ≡ (a', of_key k, true)
      → Reachable a' (k ∷ hs)
  refuse : (a : Active) (hs : List Text) (i : WakeIdentity) → Reachable a hs → Reachable a hs
  release_one :
      (a : Active) (before after : List Text) (k : Text)
      → Reachable a (before ++ k ∷ after)
      → Reachable (release (of_key k) a) (before ++ after)

-- a key is held as often as it is active, and the empty key never
abbrev IsExact : Active → List Text → Type 0
IsExact a hs = (k : Text) → (holders k hs ≡ (if has_key k a then 1 else 0)) × (has_key [] a ≡ false)

holders-append :
    (k h : Text) (before after : List Text)
    → holders k (before ++ h ∷ after) ≡ holders k (before ++ after) + (if h == k then 1 else 0)
unfolding holders
holders-append k h [] after = ground arith
holders-append k h (b ∷ before) after = ground (arith, holders-append k h before after)

IsExact-reserve :
    (a a' : Active) (hs : List Text) (i : WakeIdentity) (k : Text)
    → IsExact a hs
    → try_reserve i a ≡ (a', of_key k, true)
    → IsExact a' (k ∷ hs)
unfolding try_reserve holders
IsExact-reserve a a' hs i k x e j = ground (
  arith,
  x j,
  x k,
  beq_iff k j,
  lookup-insert (wake_key i) j true a,
  lookup-insert (wake_key i) [] true a,
  beq_iff (wake_key i) [],
  beq_iff (wake_key i) j,
)

IsExact-release :
    (a : Active) (before after : List Text) (k : Text)
    → IsExact a (before ++ k ∷ after)
    → IsExact (release (of_key k) a) (before ++ after)
unfolding release
IsExact-release a before after k x j = ground (
  arith,
  x j,
  x k,
  beq_iff k j,
  beq_refl k,
  lookup-delete k j a,
  lookup-delete k [] a,
  holders-append j k before after,
  holders-append k k before after,
)

Reachable-IsExact : (a : Active) (hs : List Text) → Reachable a hs → IsExact a hs
unfolding holders lookup
Reachable-IsExact a hs initially = λ k. (refl, refl)
Reachable-IsExact a hs (reserve a₀ _ hs₀ i k r e) =
    IsExact-reserve a₀ a hs₀ i k (Reachable-IsExact a₀ hs₀ r) e
Reachable-IsExact a hs (refuse _ _ i r) = Reachable-IsExact a hs r
Reachable-IsExact a hs (release_one a₀ before after k r) =
    IsExact-release a₀ before after k (Reachable-IsExact a₀ (before ++ k ∷ after) r)

-- Whatever workers have reserved and released, each key is held at most once, and a key can be
-- reserved exactly if no worker holds it.
pub reservations_exclusive :
    (a : Active) (hs : List Text)
    → Reachable a hs
    → (k : Text) (i : WakeIdentity) → wake_key i ≡ k
    → is_empty k ≡ false
    → (holders k hs ≤ 1) × (((try_reserve i a).2 ≡ true) ↔ (holders k hs ≡ 0))
unfolding try_reserve
reservations_exclusive a hs r k i q n = let x = Reachable-IsExact a hs r k in ground (arith, x.0)
