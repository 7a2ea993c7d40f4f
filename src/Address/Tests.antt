-- ===== src/Address/Tests.antt =====
-- Runs of the address functions on concrete addresses.
use tmux_a2a_postman.Base.{some, ◌≡◌, refl, codes, arith}
use tmux_a2a_postman.Address.{cut_colon, validate}
use tmux_a2a_postman.Address.Codec.{encode_filename_segment, decode_filename_segment}
use tmux_a2a_postman.Address.RoundTrip.{decode-encode}

-- the address "a-to-b", which holds a delimiter of the filename grammar
decode-encode_example :
    decode_filename_segment (encode_filename_segment (codes "a-to-b")) ≡ some (codes "a-to-b")
unfolding validate cut_colon
decode-encode_example = decode-encode (codes "a-to-b") (ground arith) refl
