-- ===== src/Address.antt =====
-- Node addresses: internal/nodeaddr/nodeaddr.go, with the name checks of internal/binding/binding.go
-- and of internal/config/config.go. An address is `node` or `session:node`.
pub mod Codec
pub mod RoundTrip
pub mod Tests
use tmux_a2a_postman.Base.{
  ℕ, zero, suc, ◌+◌, ◌-◌, ◌≤◌, ◌<◌, ◌≡◌, refl, Bool, true, false, not, ◌&&◌, ◌||◌, Option, none,
  some, List, [], ◌∷◌, ◌++◌, arith, ltb, leb, eqb, if◌then◌else◌, Text, codes, ◌==◌, is_empty,
  contains_byte, path_base, trim_space, length, all, Bool-cases,
}

-- strings.SplitN(address, ":", 2) with two parts: what stands before the first colon and after it
unfoldable pub cut_colon : Text → Option (Text × Text)
cut_colon [] = none
cut_colon (c ∷ s) =
    let rest = cut_colon s in
    if eqb c b':' then some ([], s) else elim rest [ none ↦ none | some (x, y) ↦ some (c ∷ x, y) ]

-- The results of `Split`.
pub record Parts : Type 0 where
  pub session_name : Text
  pub node_name : Text
  pub has_session : Bool

unfoldable pub split : Text → Parts
split address = elim (cut_colon address) [
  | none ↦ record { session_name = []; node_name = address; has_session = false }
  | some (x, y) ↦ record { session_name = x; node_name = y; has_session = true }
]

unfoldable pub simple : Text → Text
simple address = if (split address).has_session then (split address).node_name else address

unfoldable pub full : Text → Text → Text
full address default_session =
    if (split address).has_session then address else default_session ++ (b':' ∷ address)

abbrev pub is_upper : ℕ → Bool
is_upper c = leb b'A' c && leb c b'Z'

abbrev pub is_lower : ℕ → Bool
is_lower c = leb b'a' c && leb c b'z'

abbrev pub is_digit : ℕ → Bool
is_digit c = leb b'0' c && leb c b'9'

-- [a-zA-Z0-9]
unfoldable pub is_alnum : ℕ → Bool
is_alnum c = is_lower c || (is_upper c || is_digit c)

-- [a-zA-Z0-9-]
unfoldable pub is_name_byte : ℕ → Bool
unfolding is_alnum
is_name_byte c = is_alnum c || eqb c b'-'

-- binding.ValidateNodeName: ^[a-zA-Z0-9][a-zA-Z0-9-]{0,63}$
unfoldable pub validate_node_name : Text → Bool
unfolding all is_name_byte
validate_node_name [] = false
validate_node_name (c ∷ s) = is_alnum c && (all is_name_byte s && leb (length s) 63)

-- config.ValidateSessionName, with `none` for an error
unfoldable pub validate_session_name : Text → Option Text
unfolding trim_space contains_byte path_base
validate_session_name name =
    if trim_space name == []
    then none
    else if contains_byte 0 name
    then none
    else if contains_byte b'/' name || contains_byte 0x5c name
    then none
    else let clean = path_base name in
      if clean == [] || (clean == codes "." || clean == codes "..") then none else some clean

pub data AddressError : Type 0 where
  extra_colon bad_session bad_node_name : AddressError

-- The checks of a session-qualified address; the last check is that of `Validate`.
unfoldable pub validate_session_part : Parts → Option AddressError
unfolding contains_byte validate_session_name
validate_session_part p =
    if contains_byte b':' p.node_name
    then some extra_colon
    else elim (validate_session_name p.session_name) [ none ↦ some bad_session | some _ ↦ none ]

abbrev validate_parts : Parts → Option AddressError
validate_parts p =
    let name = (if validate_node_name p.node_name then none else some bad_node_name) in
    if p.has_session then elim (validate_session_part p) [ some e ↦ some e | none ↦ name ] else name

-- `none` is Go's nil error.
unfoldable pub validate : Text → Option AddressError
unfolding split validate_node_name validate_session_part
validate address = validate_parts (split address)
