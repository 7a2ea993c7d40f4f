-- ===== src/Filename/RoundTrip.antt =====
-- Reading the names that are generated: GenerateFilename and ParseMessageFilename of
-- internal/message/message.go.
use mathlib.Core.List.{append_assoc}
use tmux_a2a_postman.Base.{
  ℕ, Bool, true, false, not, ◌&&◌, ◌||◌, none, some, Text, [], ◌∷◌, ◌++◌, eqb, has_prefix, contains,
  is_empty, arith, ◌≡◌, refl, ap, ◌∙◌, subst, codes, all,
}
use tmux_a2a_postman.Address.{validate, is_digit, validate_node_name, split, cut_colon}
use tmux_a2a_postman.Address.Codec.{is_lower_hex_byte, encode_filename_segment}
use tmux_a2a_postman.Address.RoundTrip.{IsBytes, decode-encode}
use tmux_a2a_postman.Filename.{
  MessageInfo, checked_info, parse_message_filename, generate_filename, stamp, strip_nonce,
  strip_session_hash,
}
use tmux_a2a_postman.Filename.Cutting.{
  cut-append, strip_suffix-append, find_tag-append, find_tag-none,
}

-- a byte of a timestamp: a digit or a dash
abbrev pub is_timestamp_byte : ℕ → Bool
is_timestamp_byte c = is_digit c || eqb c b'-'

-- no hash, or four lowercase hexadecimal digits
abbrev pub IsHash : Text → Type 0
IsHash [] = Unit {0}
IsHash (g ∷ h ∷ i ∷ j ∷ []) = all is_lower_hex_byte (g ∷ h ∷ i ∷ j ∷ []) ≡ true
IsHash _ = ⊥

abbrev no_o : ℕ → Bool
no_o c = not (eqb c b'o')

-- Before the marker no byte is an `o`, so that the marker does not stand earlier.
no_earlier_from :
    (x : Text) → all no_o x ≡ true → contains (codes "-from-") (x ++ codes "-from") ≡ false
unfolding contains has_prefix all
no_earlier_from [] h = refl
no_earlier_from (c ∷ []) h = ground (arith, h)
no_earlier_from (c ∷ b ∷ []) h = ground (arith, h)
no_earlier_from (c ∷ b ∷ d ∷ []) h = ground (arith, h)
no_earlier_from (c ∷ b ∷ d ∷ e ∷ x) h = ground (arith, h, no_earlier_from (b ∷ d ∷ e ∷ x))

all-append : (p : ℕ → Bool) (x y : Text) → all p (x ++ y) ≡ (all p x && all p y)
unfolding all
all-append p [] y = refl
all-append p (c ∷ x) y = ground (arith, all-append p x y)

timestamp_no_o : (ts : Text) → all is_timestamp_byte ts ≡ true → all no_o ts ≡ true
unfolding all
timestamp_no_o [] h = refl
timestamp_no_o (c ∷ ts) h = ground (arith, timestamp_no_o ts)

timestamp_no_s :
    (ts : Text) → all is_timestamp_byte ts ≡ true → all (λ c. not (eqb c b's')) ts ≡ true
unfolding all
timestamp_no_s [] h = refl
timestamp_no_s (c ∷ ts) h = ground (arith, timestamp_no_s ts)

hex_no_o : (s : Text) → all is_lower_hex_byte s ≡ true → all no_o s ≡ true
unfolding all is_lower_hex_byte
hex_no_o [] h = refl
hex_no_o (c ∷ s) h = ground (arith, hex_no_o s)

-- The part before the marker: it has no `o`, and its hash and nonce are found again.
abbrev IsRead : Text → Text → Text → Type 0
IsRead s ts hash =
    (all no_o s ≡ true) × (is_empty s ≡ false) × (strip_session_hash (strip_nonce s) ≡ (ts, hash))

nonempty-append : (x : Text) (c : ℕ) (y : Text) → is_empty (x ++ c ∷ y) ≡ false
nonempty-append [] c y = refl
nonempty-append (a ∷ x) c y = refl

strip_nonce-append :
    (x : Text) (g h i j : ℕ)
    → all is_lower_hex_byte (g ∷ h ∷ i ∷ j ∷ []) ≡ true
    → strip_nonce (x ++ b'-' ∷ b'r' ∷ g ∷ h ∷ i ∷ j ∷ []) ≡ x
unfolding strip_nonce
strip_nonce-append x g h i j e = ground (arith, find_tag-append b'r' x g h i j e)

tagged_no_o :
    (x : Text) (tag g h i j : ℕ)
    → all no_o x ≡ true
    → no_o tag ≡ true
    → all is_lower_hex_byte (g ∷ h ∷ i ∷ j ∷ []) ≡ true
    → all no_o (x ++ b'-' ∷ tag ∷ g ∷ h ∷ i ∷ j ∷ []) ≡ true
unfolding all
tagged_no_o x tag g h i j a b e = ground (
  arith,
  a,
  b,
  all-append no_o x (b'-' ∷ tag ∷ g ∷ h ∷ i ∷ j ∷ []),
  hex_no_o (g ∷ h ∷ i ∷ j ∷ []) e,
)

stamp-IsRead :
    (ts hash : Text) (g h i j : ℕ)
    → all is_timestamp_byte ts ≡ true
    → IsHash hash
    → all is_lower_hex_byte (g ∷ h ∷ i ∷ j ∷ []) ≡ true
    → IsRead (stamp ts hash (g ∷ h ∷ i ∷ j ∷ [])) ts hash
unfolding stamp
stamp-IsRead ts [] g h i j time hashed e = (
  tagged_no_o ts b'r' g h i j (timestamp_no_o ts time) refl e,
  nonempty-append ts b'-' (b'r' ∷ g ∷ h ∷ i ∷ j ∷ []),
  unfold strip_session_hash in
      ground
        (arith, strip_nonce-append ts g h i j e, find_tag-none b's' ts (timestamp_no_s ts time)),
)
stamp-IsRead ts (k ∷ l ∷ m ∷ n ∷ []) g h i j time hashed e =
    let x : Text = ts ++ b'-' ∷ b's' ∷ k ∷ l ∷ m ∷ n ∷ [] in
    let whole : x ++ b'-' ∷ b'r' ∷ g ∷ h ∷ i ∷ j ∷ []
        ≡ stamp ts (k ∷ l ∷ m ∷ n ∷ []) (g ∷ h ∷ i ∷ j ∷ []) =
      append_assoc ts (b'-' ∷ b's' ∷ k ∷ l ∷ m ∷ n ∷ []) (b'-' ∷ b'r' ∷ g ∷ h ∷ i ∷ j ∷ []) in
    subst (λ s. IsRead s ts (k ∷ l ∷ m ∷ n ∷ [])) whole
      (
        tagged_no_o x b'r' g h i j
            (tagged_no_o ts b's' k l m n (timestamp_no_o ts time) refl hashed) refl e,
        nonempty-append x b'-' (b'r' ∷ g ∷ h ∷ i ∷ j ∷ []),
        unfold strip_session_hash in
            ground (arith, strip_nonce-append x g h i j e, find_tag-append b's' ts k l m n hashed),
      )
stamp-IsRead ts (_ ∷ []) g h i j time hashed e = absurd hashed
stamp-IsRead ts (_ ∷ _ ∷ []) g h i j time hashed e = absurd hashed
stamp-IsRead ts (_ ∷ _ ∷ _ ∷ []) g h i j time hashed e = absurd hashed
stamp-IsRead ts (_ ∷ _ ∷ _ ∷ _ ∷ _ ∷ _) g h i j time hashed e = absurd hashed

abbrev pub info_of : Text → Text → Text → Text → MessageInfo
info_of ts sender recipient hash = record {
  timestamp = ts;
  from = sender;
  to = recipient;
  session_hash = hash;
  filename = [];
}

valid_nonempty : (a : Text) → validate a ≡ none → is_empty a ≡ false
unfolding validate split cut_colon validate_node_name
valid_nonempty [] h = absurd (ground (arith, h))
valid_nonempty (c ∷ a) h = refl

module _ (s sender recipient ts hash : Text) (read : IsRead s ts hash)
    (sender_bytes : IsBytes sender) (recipient_bytes : IsBytes recipient)
    (sender_valid : validate sender ≡ none) (recipient_valid : validate recipient ≡ none)
    (no_earlier : contains (codes "-to-") (encode_filename_segment sender ++ codes "-to")
      ≡ false) where
  -- the name up to its suffix
  abbrev base : Text
  base =
      s
      ++ (codes "-from-"
          ++ (encode_filename_segment sender
              ++ (codes "-to-" ++ encode_filename_segment recipient)))

  abbrev name : Text
  name =
      s
      ++ (codes "-from-"
          ++ (encode_filename_segment sender
              ++ (codes "-to-" ++ (encode_filename_segment recipient ++ codes ".md"))))

  whole : base ++ codes ".md" ≡ name
  whole =
      append_assoc s
        (codes "-from-"
          ++ (encode_filename_segment sender
              ++ (codes "-to-" ++ encode_filename_segment recipient)))
        (codes ".md")
      ∙ ap (λ x. s ++ (codes "-from-" ++ x))
          (append_assoc (encode_filename_segment sender)
            (codes "-to-" ++ encode_filename_segment recipient) (codes ".md"))

  parse_base :
      parse_message_filename (base ++ codes ".md") ≡ some (info_of ts sender recipient hash)
  unfolding parse_message_filename checked_info
  parse_base =
      let at_from =
        cut-append (codes "-from") b'-' s
          (encode_filename_segment sender ++ (codes "-to-" ++ encode_filename_segment recipient))
          (no_earlier_from s read.0) in
      let at_to =
        cut-append (codes "-to") b'-' (encode_filename_segment sender)
          (encode_filename_segment recipient) no_earlier in
      ground (
        arith,
        strip_suffix-append base b'.' (codes "md"),
        at_from,
        at_to,
        decode-encode sender sender_bytes sender_valid,
        decode-encode recipient recipient_bytes recipient_valid,
        read.1,
        read.2,
        sender_valid,
        recipient_valid,
        valid_nonempty sender sender_valid,
        valid_nonempty recipient recipient_valid,
      )

  parse_name : parse_message_filename name ≡ some (info_of ts sender recipient hash)
  parse_name =
      subst (λ x. parse_message_filename x ≡ some (info_of ts sender recipient hash)) whole
        parse_base

-- A generated filename is read as what it was generated from, if the timestamp has digits and dashes,
-- the hash and the nonce are as they are written, the addresses are valid and hold bytes, and the segment
-- of the sender does not end so that the marker of the recipient stands earlier, as `-to` does.
pub parse_message_filename-generate_filename :
    (ts sender recipient hash : Text) (g h i j : ℕ)
    → all is_timestamp_byte ts ≡ true
    → IsHash hash
    → all is_lower_hex_byte (g ∷ h ∷ i ∷ j ∷ []) ≡ true
    → IsBytes sender
    → IsBytes recipient
    → validate sender ≡ none
    → validate recipient ≡ none
    → contains (codes "-to-") (encode_filename_segment sender ++ codes "-to") ≡ false
    → (name : Text) × (generate_filename ts sender recipient hash (g ∷ h ∷ i ∷ j ∷ []) ≡ some name)
      × (parse_message_filename name ≡ some (info_of ts sender recipient hash))
unfolding generate_filename
parse_message_filename-generate_filename ts sender recipient hash g h i j time hashed e a b v w c =
    let s = stamp ts hash (g ∷ h ∷ i ∷ j ∷ []) in
    let r = stamp-IsRead ts hash g h i j time hashed e in
    (
      name s sender recipient ts hash r a b v w c,
      ground (arith, v, w),
      parse_name s sender recipient ts hash r a b v w c,
    )

-- Two messages of different senders and recipients have one name: the one from a sender whose name ends
-- with `-to`, and the one to a recipient whose name begins with `to-`, if the names are valid and none is
-- encoded.
pub generate_filename-collides :
    (ts x y hash nonce : Text)
    → validate (x ++ codes "-to") ≡ none
    → validate y ≡ none
    → validate x ≡ none
    → validate (codes "to-" ++ y) ≡ none
    → encode_filename_segment (x ++ codes "-to") ≡ x ++ codes "-to"
    → encode_filename_segment y ≡ y
    → encode_filename_segment x ≡ x
    → encode_filename_segment (codes "to-" ++ y) ≡ codes "to-" ++ y
    → generate_filename ts (x ++ codes "-to") y hash nonce
      ≡ generate_filename ts x (codes "to-" ++ y) hash nonce
unfolding generate_filename
generate_filename-collides ts x y hash nonce a b c d p q r t =
    let same : (x ++ codes "-to") ++ (codes "-to-" ++ (y ++ codes ".md"))
        ≡ x ++ (codes "-to-" ++ ((codes "to-" ++ y) ++ codes ".md")) =
      append_assoc x (codes "-to") (codes "-to-" ++ (y ++ codes ".md")) in
    ground (arith, a, b, c, d, p, q, r, t, same)
