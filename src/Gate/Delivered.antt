-- ===== src/Gate/Delivered.antt =====
-- What the daemon reads of a delivered request for approval.
use tmux_a2a_postman.Base.{
  ap, ◌∙◌, Bool, true, false, Text, codes, [], ◌∷◌, ◌++◌, ◌≡◌, refl, is_empty, trim_space, ok, all,
  arith, ◌==◌, lookup, any, trim_space_visible, is_visible, trim_left, trim_left_rev, is_space,
  is_space2, is_space3,
}
use tmux_a2a_postman.Address.{is_alnum}
use tmux_a2a_postman.Gate.{is_valid_thread_id, is_thread_id_byte}
use tmux_a2a_postman.Gate.Policy.{CommandPolicy}
use tmux_a2a_postman.Gate.Request.{
  RequestParams, request_body, request_content, approval_request, printed,
}
use tmux_a2a_postman.Envelope.{Metadata, only_body, set_field}
use tmux_a2a_postman.Envelope.Reading.{parse_metadata}
use tmux_a2a_postman.Envelope.Policy.{resolve_reply_policy, required, reads_as, next_lower}
use tmux_a2a_postman.Envelope.Lines.{IsValue, is_line_byte}
use tmux_a2a_postman.Envelope.RoundTrip.{
  Params, AreParams, params_text, set_params, parse_metadata-params_text, checked,
}

thread_id_bytes :
    (t : Text)
    → all is_thread_id_byte t ≡ true
    → (all is_visible t ≡ true) × (all is_line_byte t ≡ true)
unfolding all is_alnum
thread_id_bytes [] h = (refl, refl)
thread_id_bytes (c ∷ t) h = ground (arith, thread_id_bytes t)

-- A thread id that is let through stands on one line, as it is.
pub is_valid_thread_id-IsValue :
    (t : Text) → is_valid_thread_id t ≡ true → is_empty t ≡ false → IsValue t
unfolding is_valid_thread_id
is_valid_thread_id-IsValue t h e =
    let (visible, lines) = thread_id_bytes t (ground arith) in
    record { nonempty = e; trimmed = trim_space_visible t visible; one_line = lines }

-- the fields of the request's frontmatter
abbrev request_params : Text → RequestParams → Params
request_params requester q =
    (codes "contextId", q.context_id)
    ∷ (codes "from", requester)
    ∷ (codes "to", q.command_approver_node)
    ∷ (codes "messageId", q.filename)
    ∷ (codes "replyPolicy", codes "required")
    ∷ (codes "input_request_id", q.input_request_id)
    ∷ (codes "thread_id", q.thread_id)
    ∷ (codes "timestamp", q.timestamp)
    ∷ []

-- the values that the request is written from stand on one line each
pub record AreWritable (requester : Text) (q : RequestParams) : Type 0 where
  pub context_id : IsValue q.context_id
  pub from : IsValue requester
  pub to : IsValue q.command_approver_node
  pub filename : IsValue q.filename
  pub input_request_id : IsValue q.input_request_id
  pub timestamp : IsValue q.timestamp
  pub valid_thread : is_valid_thread_id q.thread_id ≡ true
  pub named_thread : is_empty q.thread_id ≡ false

request_params-AreParams :
    (requester : Text) (q : RequestParams)
    → AreWritable requester q
    → AreParams (request_params requester q)
unfolding all
request_params-AreParams requester q h = (
  record { named = refl; plain = refl },
  h.context_id,
  (
    record { named = refl; plain = refl },
    h.from,
    (
      record { named = refl; plain = refl },
      h.to,
      (
        record { named = refl; plain = refl },
        h.filename,
        (
          record { named = refl; plain = refl },
          record {
            nonempty = refl;
            trimmed = trim_space_visible (codes "required") (unfold all in refl);
            one_line = refl;
          },
          (
            record { named = refl; plain = refl },
            h.input_request_id,
            (
              record { named = refl; plain = refl },
              is_valid_thread_id-IsValue q.thread_id h.valid_thread h.named_thread,
              (record { named = refl; plain = refl }, h.timestamp, tt),
            ),
          ),
        ),
      ),
    ),
  ),
)

-- what is read of the request
abbrev pub request_metadata : Text → RequestParams → Text → Metadata
request_metadata requester q body =
    record (only_body (trim_space (codes "\n\n" ++ (body ++ codes "\n")))) {
      context_id = q.context_id;
      from = requester;
      to = q.command_approver_node;
      message_id = q.filename;
      reply_policy = codes "required";
      input_request_id = q.input_request_id;
      thread_id = q.thread_id;
      timestamp = q.timestamp;
    }

request_params_set :
    (requester : Text) (q : RequestParams) (body : Text)
    → set_params
        (request_params requester q)
        (only_body (trim_space (codes "\n\n" ++ (body ++ codes "\n"))))
      ≡ request_metadata requester q body
unfolding set_params set_field lookup ◌==◌
request_params_set requester q body = refl

request_content-params_text :
    (requester : Text) (q : RequestParams) (body : Text)
    → request_content requester q body
      ≡ params_text (request_params requester q) (codes "\n\n" ++ (body ++ codes "\n"))
unfolding request_content printed
request_content-params_text requester q body = refl

request_content_read :
    (requester : Text) (q : RequestParams) (body : Text)
    → AreWritable requester q
    → parse_metadata (request_content requester q body) ≡ ok (request_metadata requester q body)
request_content_read requester q body h =
    let f = h.from.nonempty in
    let t = h.to.nonempty in
    ap parse_metadata (request_content-params_text requester q body)
    ∙ (parse_metadata-params_text (codes "contextId") q.context_id _
          (codes "\n\n" ++ (body ++ codes "\n")) (request_params-AreParams requester q h)
        ∙ (ap checked (request_params_set requester q body) ∙ ground arith))

required_read :
    (requester : Text) (q : RequestParams) (body : Text)
    → resolve_reply_policy (request_metadata requester q body) ≡ required
unfolding resolve_reply_policy reads_as next_lower any trim_space trim_left trim_left_rev is_space
    is_space2 is_space3
required_read requester q body = refl

-- A request for approval whose values stand on one line each, and whose thread id is valid, is read as
-- exactly what it was written from, and as one that needs a reply, whatever the command's hash, label,
-- category and reason are.
pub parse_metadata-approval_request :
    (p : CommandPolicy) (q : RequestParams) (hash reason : Text) (store_command_text : Bool)
    → AreWritable p.requester q
    → let m =
        request_metadata p.requester q
          (request_body p q.thread_id hash reason store_command_text) in
      (parse_metadata (approval_request p q hash reason store_command_text) ≡ ok m)
      × (resolve_reply_policy m ≡ required)
unfolding approval_request
parse_metadata-approval_request p q hash reason store_command_text h =
    let body = request_body p q.thread_id hash reason store_command_text in
    (request_content_read p.requester q body h, required_read p.requester q body)
