-- ===== src/Address/RoundTrip.antt =====
-- What the filename codec of internal/nodeaddr/nodeaddr.go guarantees.
use tmux_a2a_postman.Base.{
  ℕ, ◌*◌, ◌/◌, ◌%◌, ◌<◌, ◌≡◌, ◌≢◌, refl, true, false, not, ◌&&◌, ◌||◌, none, some, [], ◌∷◌, ◌++◌,
  arith, eqb, if◌then◌else◌, Text, codes, has_prefix, contains, all, length, is_empty, Bool-cases,
  inl, inr, All, contains_byte,
}
use tmux_a2a_postman.Address.{
  validate, is_alnum, validate_node_name, split, cut_colon, simple, full,
}
use tmux_a2a_postman.Address.Codec.{
  hex_digit, hex_encode, hex_value, hex_decode, is_lower_hex_byte, is_lower_hex_even,
  encode_filename_segment, decode_filename_segment,
}

-- every member is a byte
abbrev pub IsBytes : Text → Type 0
IsBytes = All (λ c. c < 256)

hex_value-hex_digit : (n : ℕ) → n < 16 → hex_value (hex_digit n) ≡ some n
unfolding hex_value hex_digit
hex_value-hex_digit n h = ground arith

hex_digit-lower : (n : ℕ) → n < 16 → is_lower_hex_byte (hex_digit n) ≡ true
unfolding is_lower_hex_byte hex_digit
hex_digit-lower n h = ground arith

hex_decode-hex_encode : (s : Text) → IsBytes s → hex_decode (hex_encode s) ≡ some s
unfolding hex_decode hex_encode
hex_decode-hex_encode [] h = refl
hex_decode-hex_encode (c ∷ s) h =
    ground (
      arith,
      hex_value-hex_digit (c / 16),
      hex_value-hex_digit (c % 16),
      hex_decode-hex_encode s h.1,
    )

all_lower-hex_encode : (s : Text) → IsBytes s → all is_lower_hex_byte (hex_encode s) ≡ true
unfolding all hex_encode
all_lower-hex_encode [] h = refl
all_lower-hex_encode (c ∷ s) h =
    ground (arith, hex_digit-lower (c / 16), hex_digit-lower (c % 16), all_lower-hex_encode s h.1)

length-hex_encode : (s : Text) → length (hex_encode s) ≡ 2 * length s
unfolding hex_encode
length-hex_encode [] = refl
length-hex_encode (c ∷ s) = omega (arith, length-hex_encode s)

-- what is encoded is decoded, whatever the text
decode-tilde-hex_encode :
    (c : ℕ) (s : Text)
    → IsBytes (c ∷ s)
    → decode_filename_segment (b'~' ∷ hex_encode (c ∷ s)) ≡ some (c ∷ s)
unfolding decode_filename_segment is_lower_hex_even
decode-tilde-hex_encode c s h =
    let even : length (hex_encode (c ∷ s)) % 2 ≡ 0 = omega (arith, length-hex_encode (c ∷ s)) in
    let some_digit : is_empty (hex_encode (c ∷ s)) ≡ false = unfold hex_encode in refl in
    ground
      (arith, even, some_digit, all_lower-hex_encode (c ∷ s) h, hex_decode-hex_encode (c ∷ s) h)

-- hexadecimal digits hold no colon
cut_colon-hex : (s : Text) → all is_lower_hex_byte s ≡ true → cut_colon s ≡ none
unfolding cut_colon all is_lower_hex_byte
cut_colon-hex [] h = refl
cut_colon-hex (c ∷ s) h = ground (arith, cut_colon-hex s)

-- a valid address that starts with a tilde is not one that decoding would change
tilde_not_hex :
    (c : ℕ) (s : Text) → eqb c b'~' ≡ true → validate (c ∷ s) ≡ none → is_lower_hex_even s ≡ false
unfolding validate is_lower_hex_even cut_colon validate_node_name is_alnum
tilde_not_hex c s t h = ground (arith, cut_colon-hex s)

decode_verbatim : (a : Text) → validate a ≡ none → decode_filename_segment a ≡ some a
unfolding decode_filename_segment
decode_verbatim [] h = refl
decode_verbatim (c ∷ s) h = ground (arith, tilde_not_hex c s)

-- A valid address that is encoded into a filename segment is decoded to itself.
pub decode-encode :
    (address : Text)
    → IsBytes address
    → validate address ≡ none
    → decode_filename_segment (encode_filename_segment address) ≡ some address
unfolding encode_filename_segment
decode-encode [] h v = unfold contains has_prefix in decode_verbatim [] v
decode-encode (c ∷ s) h v =
    elim (Bool-cases
      (not (contains (codes "-from-") (c ∷ s)) && not (contains (codes "-to-") (c ∷ s)))) [
        | inl e ↦ rw e (decode_verbatim (c ∷ s) v)
        | inr e ↦ rw e (decode-tilde-hex_encode c s h)
      ]

no_dash :
    (p : Text) (s : Text) → all (λ c. not (eqb c b'-')) s ≡ true → contains (b'-' ∷ p) s ≡ false
unfolding contains has_prefix all
no_dash p [] h = refl
no_dash p (c ∷ s) h = ground (arith, no_dash p s)

hex_no_dash : (s : Text) → all is_lower_hex_byte s ≡ true → all (λ c. not (eqb c b'-')) s ≡ true
unfolding all is_lower_hex_byte
hex_no_dash [] h = refl
hex_no_dash (c ∷ s) h = ground (arith, hex_no_dash s)

no_dash-hex_encode : (s : Text) → IsBytes s → all (λ c. not (eqb c b'-')) (hex_encode s) ≡ true
no_dash-hex_encode s h = hex_no_dash (hex_encode s) (all_lower-hex_encode s h)

-- A filename segment of an encoded address holds neither delimiter of the filename grammar.
encode_filename_segment_no_delimiter :
    (address : Text)
    → IsBytes address
    → (contains (codes "-from-") (encode_filename_segment address) ≡ false)
      × (contains (codes "-to-") (encode_filename_segment address) ≡ false)
unfolding encode_filename_segment
encode_filename_segment_no_delimiter a h =
    let hex = no_dash-hex_encode a h in
    let tilde : all (λ c. not (eqb c b'-')) (b'~' ∷ hex_encode a) ≡ true = unfold all in hex in
    elim (Bool-cases (contains (codes "-from-") a)) [
      | inl e ↦ rw e (
        no_dash (codes "from-") (b'~' ∷ hex_encode a) tilde,
        no_dash (codes "to-") (b'~' ∷ hex_encode a) tilde,
      )
      | inr e ↦ elim (Bool-cases (contains (codes "-to-") a)) [
        | inl f ↦
            rw (e, f)
              (
                no_dash (codes "from-") (b'~' ∷ hex_encode a) tilde,
                no_dash (codes "to-") (b'~' ∷ hex_encode a) tilde,
              )
        | inr f ↦ rw (e, f) (e, f)
      ]
    ]

hex_decode-ne-none :
    (s : Text) → all is_lower_hex_byte s ≡ true → length s % 2 ≡ 0 → hex_decode s ≢ none
unfolding hex_decode all is_lower_hex_byte hex_value
hex_decode-ne-none [] h e = ground arith
hex_decode-ne-none (c ∷ []) h e = absurd (omega arith)
hex_decode-ne-none (c ∷ d ∷ s) h e = ground (arith, hex_decode-ne-none s)

is_lower_hex_even_parts :
    (s : Text) → is_lower_hex_even s ≡ true → (all is_lower_hex_byte s ≡ true) × (length s % 2 ≡ 0)
unfolding is_lower_hex_even
is_lower_hex_even_parts s h = elim (Bool-cases (is_empty s || eqb (length s % 2) 1)) [
  | inl e ↦ cc (rw e at h)
  | inr e ↦ ground arith
]

-- Decoding a filename segment never fails, since only an even number of hexadecimal digits is
-- handed to the hex package.
decode_filename_segment-ne-none : (segment : Text) → decode_filename_segment segment ≢ none
unfolding decode_filename_segment
decode_filename_segment-ne-none [] = ground arith
decode_filename_segment-ne-none (c ∷ s) =
    ground (arith, hex_decode-ne-none s, is_lower_hex_even_parts s)

cut_colon-append :
    (d a : Text) → contains_byte b':' d ≡ false → cut_colon (d ++ (b':' ∷ a)) ≡ some (d, a)
unfolding cut_colon contains_byte
cut_colon-append [] a h = refl
cut_colon-append (c ∷ d) a h = ground (arith, cut_colon-append d a)

-- Qualifying an address by a session without a colon gives a qualified address, which keeps the
-- node; a bare address gets that session, and a qualified one stays as it is.
split-full :
    (address session : Text)
    → contains_byte b':' session ≡ false
    → ((split (full address session)).has_session ≡ true)
      × (simple (full address session) ≡ simple address)
      × (full (full address session) session ≡ full address session)
      × ((split (full address session)).session_name
          ≡ (if (split address).has_session then (split address).session_name else session))
unfolding split simple full
split-full a s h = ground (arith, cut_colon-append s a)
