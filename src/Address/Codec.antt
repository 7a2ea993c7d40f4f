-- ===== src/Address/Codec.antt =====
-- EncodeFilenameSegment and DecodeFilenameSegment of internal/nodeaddr/nodeaddr.go: an address that
-- holds a delimiter of the filename grammar is written in hexadecimal behind a tilde.
use tmux_a2a_postman.Base.{
  ℕ, ◌+◌, ◌-◌, ◌*◌, ◌/◌, ◌%◌, Bool, false, not, ◌&&◌, ◌||◌, Option, none, some, [], ◌∷◌, ltb, leb,
  eqb, if◌then◌else◌, Text, codes, contains, all, length, is_empty,
}

-- the hexadecimal digit of a number below 16
unfoldable pub hex_digit : ℕ → ℕ
hex_digit n = if ltb n 10 then b'0' + n else b'a' + (n - 10)

-- hex.EncodeToString
unfoldable pub hex_encode : Text → Text
unfolding hex_digit
hex_encode [] = []
hex_encode (c ∷ s) = hex_digit (c / 16) ∷ hex_digit (c % 16) ∷ hex_encode s

-- the value of a digit, of either case as in the hex package
unfoldable pub hex_value : ℕ → Option ℕ
hex_value c =
    if leb b'0' c && leb c b'9'
    then some (c - b'0')
    else if leb b'a' c && leb c b'f'
    then some (c - b'a' + 10)
    else if leb b'A' c && leb c b'F'
    then some (c - b'A' + 10)
    else none

-- hex.DecodeString, with `none` for an error
unfoldable pub hex_decode : Text → Option Text
unfolding hex_value
hex_decode [] = some []
hex_decode (c ∷ []) = none
hex_decode (c ∷ d ∷ s) = elim (hex_value c) [
  | none ↦ none
  | some x ↦ elim (hex_value d) [
    | none ↦ none
    | some y ↦ elim (hex_decode s) [ none ↦ none | some r ↦ some ((x * 16 + y) ∷ r) ]
  ]
]

unfoldable pub is_lower_hex_byte : ℕ → Bool
is_lower_hex_byte c = (leb b'0' c && leb c b'9') || (leb b'a' c && leb c b'f')

unfoldable pub is_lower_hex_even : Text → Bool
unfolding is_lower_hex_byte all
is_lower_hex_even value =
    if is_empty value || eqb (length value % 2) 1 then false else all is_lower_hex_byte value

unfoldable pub encode_filename_segment : Text → Text
unfolding contains hex_encode
encode_filename_segment address =
    if not (contains (codes "-from-") address) && not (contains (codes "-to-") address)
    then address
    else b'~' ∷ hex_encode address

-- `none` is an error
unfoldable pub decode_filename_segment : Text → Option Text
decode_filename_segment [] = some []
decode_filename_segment (c ∷ encoded) =
    if not (eqb c b'~')
    then some (c ∷ encoded)
    else if not (is_lower_hex_even encoded)
    then some (c ∷ encoded)
    else hex_decode encoded
