-- ===== src/Base/Space.antt =====
-- strings.TrimSpace: the white space of Unicode at both ends of a text, in UTF-8.
use Prim.Native.Nat.{ℕ}
use mathlib.Core.Bool.{Bool, ◌&&◌, ◌||◌}
use mathlib.Core.List.{[], ◌∷◌, reverse}
use tmux_a2a_postman.Base.Test.{eqb, leb, if◌then◌else◌}
use tmux_a2a_postman.Base.Strings.{Text}

-- tab, line feed, vertical tab, form feed, carriage return, blank
unfoldable pub is_space : ℕ → Bool
is_space c = (leb 9 c && leb c 13) || eqb c 32

-- U+0085 and U+00A0
unfoldable pub is_space2 : ℕ → ℕ → Bool
is_space2 a b = eqb a 0xc2 && (eqb b 0x85 || eqb b 0xa0)

-- U+1680, U+2000 to U+200A, U+2028, U+2029, U+202F, U+205F, U+3000
unfoldable pub is_space3 : ℕ → ℕ → ℕ → Bool
is_space3 a b c =
    (eqb a 0xe1 && (eqb b 0x9a && eqb c 0x80))
    || ((eqb a 0xe2 && (eqb b 0x80 && (leb 0x80 c && leb c 0x8a)))
        || ((eqb a 0xe2 && (eqb b 0x80 && (eqb c 0xa8 || (eqb c 0xa9 || eqb c 0xaf))))
            || ((eqb a 0xe2 && (eqb b 0x81 && eqb c 0x9f))
                || (eqb a 0xe3 && (eqb b 0x80 && eqb c 0x80)))))

unfoldable pub trim_left : Text → Text
trim_left [] = []
trim_left (a ∷ []) = if is_space a then [] else a ∷ []
trim_left (a ∷ b ∷ []) =
    let r = trim_left (b ∷ []) in if is_space a then r else if is_space2 a b then [] else a ∷ b ∷ []
trim_left (a ∷ b ∷ c ∷ s) =
    let r = trim_left (b ∷ c ∷ s) in
    let r2 = trim_left (c ∷ s) in
    let r3 = trim_left s in
    if is_space a
    then r
    else if is_space2 a b
    then r2
    else if is_space3 a b c
    then r3
    else a ∷ b ∷ c ∷ s

-- the same over the bytes in reverse
unfoldable pub trim_left_rev : Text → Text
trim_left_rev [] = []
trim_left_rev (a ∷ []) = if is_space a then [] else a ∷ []
trim_left_rev (a ∷ b ∷ []) =
    let r = trim_left_rev (b ∷ []) in
    if is_space a then r else if is_space2 b a then [] else a ∷ b ∷ []
trim_left_rev (a ∷ b ∷ c ∷ s) =
    let r = trim_left_rev (b ∷ c ∷ s) in
    let r2 = trim_left_rev (c ∷ s) in
    let r3 = trim_left_rev s in
    if is_space a
    then r
    else if is_space2 b a
    then r2
    else if is_space3 c b a
    then r3
    else a ∷ b ∷ c ∷ s

unfoldable pub trim_space : Text → Text
trim_space s = reverse (trim_left_rev (reverse (trim_left s)))
