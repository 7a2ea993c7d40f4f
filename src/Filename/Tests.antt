-- ===== src/Filename/Tests.antt =====
-- Names of messages between concrete nodes.
use tmux_a2a_postman.Base.{
  arith, ◌≡◌, refl, some, Text, [], codes, all, contains, has_prefix, cut, strip_suffix,
  drop_length, ◌==◌,
}
use tmux_a2a_postman.Address.{
  validate, validate_node_name, is_alnum, is_name_byte, split, cut_colon,
}
use tmux_a2a_postman.Address.Codec.{
  is_lower_hex_byte, encode_filename_segment, decode_filename_segment,
}
use tmux_a2a_postman.Filename.{
  parse_message_filename, generate_filename, checked_info, find_tag, match_tag,
}
use tmux_a2a_postman.Filename.RoundTrip.{
  info_of, parse_message_filename-generate_filename, generate_filename-collides,
}

abbrev nonce : Text
nonce = codes "00ff"

-- What a message from `a-to` to `bob` is read as
misread :
    parse_message_filename (codes "20260201-022121-r00ff-from-a-to-to-bob.md")
    ≡ some (info_of (codes "20260201-022121") (codes "a") (codes "to-bob") [])
unfolding parse_message_filename cut strip_suffix has_prefix drop_length ◌==◌ checked_info find_tag
    match_tag decode_filename_segment validate validate_node_name is_alnum is_name_byte split
    cut_colon all
misread = refl

parse_message_filename-generate_filename_example :
    (name : Text) × (generate_filename
        (codes "20260201-022121")
        (codes "alice")
        (codes "bob")
        (codes "1a2b")
        nonce
      ≡ some name)
    × (parse_message_filename name
        ≡ some (info_of (codes "20260201-022121") (codes "alice") (codes "bob") (codes "1a2b")))
unfolding all is_lower_hex_byte validate validate_node_name is_alnum is_name_byte split cut_colon
    contains has_prefix encode_filename_segment
parse_message_filename-generate_filename_example =
    parse_message_filename-generate_filename (codes "20260201-022121") (codes "alice") (codes "bob")
      (codes "1a2b") b'0' b'0' b'f' b'f' refl refl refl (ground arith) (ground arith) refl refl refl

generate_filename-collides_example :
    generate_filename (codes "20260201-022121") (codes "a-to") (codes "bob") [] nonce
    ≡ generate_filename (codes "20260201-022121") (codes "a") (codes "to-bob") [] nonce
unfolding all validate validate_node_name is_alnum is_name_byte split cut_colon contains has_prefix
    encode_filename_segment
generate_filename-collides_example =
    generate_filename-collides (codes "20260201-022121") (codes "a") (codes "bob") [] nonce refl
      refl refl refl refl refl refl refl
