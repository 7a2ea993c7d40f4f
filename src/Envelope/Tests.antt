-- ===== src/Envelope/Tests.antt =====
-- Messages that are written and read.
use tmux_a2a_postman.Base.{
  ◌≡◌, refl, codes, [], ◌∷◌, trim_space, trim_space_visible, ok, all, lookup, ◌==◌,
}
use tmux_a2a_postman.Envelope.{only_body, set_field, Metadata}
use tmux_a2a_postman.Envelope.Reading.{parse_metadata}
use tmux_a2a_postman.Envelope.RoundTrip.{
  AreParams, Params, params_text, set_params, parse_metadata-params_text,
}

abbrev two_fields : Params
two_fields = (codes "from", codes "alice") ∷ (codes "to", codes "bob") ∷ []

two_fields-AreParams : AreParams two_fields
unfolding all
two_fields-AreParams = (
  record { named = refl; plain = refl },
  record {
    nonempty = refl;
    trimmed = trim_space_visible (codes "alice") (unfold all in refl);
    one_line = refl;
  },
  (
    record { named = refl; plain = refl },
    record {
      nonempty = refl;
      trimmed = trim_space_visible (codes "bob") (unfold all in refl);
      one_line = refl;
    },
    tt,
  ),
)

-- what is read of the two fields
abbrev alice_to_bob : Metadata
alice_to_bob = record (only_body (trim_space (codes "\nhi"))) {
  from = codes "alice";
  to = codes "bob";
}

parse_metadata-params_text_example :
    parse_metadata (params_text two_fields (codes "\nhi")) ≡ ok alice_to_bob
unfolding set_params set_field lookup ◌==◌
parse_metadata-params_text_example =
    parse_metadata-params_text (codes "from") (codes "alice") ((codes "to", codes "bob") ∷ [])
      (codes "\nhi") two_fields-AreParams
