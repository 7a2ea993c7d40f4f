-- ===== src/Filename.antt =====
-- Message filenames: GenerateFilename and ParseMessageFilename of internal/message/message.go, and
-- the record that parsing fills. The random nonce and the hash of the session name, which come from
-- the crypto packages, are arguments.
pub mod Cutting
pub mod RoundTrip
pub mod Tests
use tmux_a2a_postman.Base.{
  ℕ, Bool, true, false, not, ◌&&◌, ◌||◌, Option, none, some, [], ◌∷◌, ◌++◌, eqb, if◌then◌else◌,
  Text, codes, is_empty, cut, strip_suffix, ◌>>=◌, all,
}
use tmux_a2a_postman.Address.{validate, AddressError}
use tmux_a2a_postman.Address.Codec.{
  is_lower_hex_byte, encode_filename_segment, decode_filename_segment,
}

pub record MessageInfo : Type 0 where
  pub timestamp : Text
  pub from : Text
  pub to : Text
  pub session_hash : Text
  pub filename : Text

-- A dash, the tag, and four lowercase hexadecimal digits up to the end, as in the patterns
-- sessionHashRe (tag s) and nonceRe (tag r): the four digits.
unfoldable pub match_tag : ℕ → Text → Option Text
unfolding is_lower_hex_byte all
match_tag tag (a ∷ b ∷ c ∷ d ∷ e ∷ f ∷ []) =
    if eqb a b'-' && (eqb b tag && all is_lower_hex_byte (c ∷ d ∷ e ∷ f ∷ []))
    then some (c ∷ d ∷ e ∷ f ∷ [])
    else none
match_tag tag _ = none

-- FindStringSubmatch of such a pattern: what stands before the match, and the digits
unfoldable pub find_tag : ℕ → Text → Option (Text × Text)
unfolding match_tag
find_tag tag [] = none
find_tag tag (c ∷ s) =
    let rest = find_tag tag s in
    elim (match_tag tag (c ∷ s)) [
      | some digits ↦ some ([], digits)
      | none ↦ elim rest [ none ↦ none | some (x, digits) ↦ some (c ∷ x, digits) ]
    ]

abbrev pub is_valid : Option AddressError → Bool
is_valid none = true
is_valid (some e) = false

-- Step 1 of the timestamp portion: without its nonce
unfoldable pub strip_nonce : Text → Text
unfolding find_tag
strip_nonce raw = elim (find_tag b'r' raw) [ none ↦ raw | some (x, digits) ↦ x ]

-- Step 2: the timestamp and the session hash
unfoldable pub strip_session_hash : Text → Text × Text
unfolding find_tag
strip_session_hash raw = elim (find_tag b's' raw) [
  | none ↦ (raw, [])
  | some (x, digits) ↦ (x, digits)
]

-- The fields once they are cut out and decoded; `none` is an error.
unfoldable pub checked_info : Text → Text → Text → Option MessageInfo
unfolding strip_nonce strip_session_hash validate
checked_info timestamp_raw from to =
    if is_empty timestamp_raw || (is_empty from || is_empty to)
    then none
    else if not (is_valid (validate from)) || not (is_valid (validate to))
    then none
    else let (timestamp, hash) = strip_session_hash (strip_nonce timestamp_raw) in
      some
        (record { timestamp = timestamp; from = from; to = to; session_hash = hash; filename = [] })

unfoldable pub parse_message_filename : Text → Option MessageInfo
parse_message_filename filename = do
  base ← strip_suffix (codes ".md") filename
  at_from ← cut (codes "-from-") base
  at_to ← cut (codes "-to-") at_from.1
  from ← decode_filename_segment at_to.0
  to ← decode_filename_segment at_to.1
  checked_info at_from.0 from to

-- The part of a generated name before "-from-".
unfoldable pub stamp : Text → Text → Text → Text
stamp ts hash nonce =
    if is_empty hash
    then ts ++ (b'-' ∷ b'r' ∷ nonce)
    else ts ++ (b'-' ∷ b's' ∷ hash ++ (b'-' ∷ b'r' ∷ nonce))

-- GenerateFilename, with the nonce and the session hash given
unfoldable pub generate_filename : Text → Text → Text → Text → Text → Option Text
unfolding stamp
generate_filename ts sender recipient hash nonce =
    if not (is_valid (validate sender)) || not (is_valid (validate recipient))
    then none
    else some (
        stamp ts hash nonce
        ++ (codes "-from-"
            ++ (encode_filename_segment sender
                ++ (codes "-to-" ++ (encode_filename_segment recipient ++ codes ".md")))))
