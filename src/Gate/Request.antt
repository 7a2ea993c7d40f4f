-- ===== src/Gate/Request.antt =====
-- The message that asks the approver: deliverCommandApprovalRequest of
-- internal/cli/command_approval_delivery.go. The identifiers, the filename and the time are given.
use tmux_a2a_postman.Base.{
  List, ◌∷◌, Bool, Text, codes, [], ◌++◌, is_empty, if◌then◌else◌, trim_space,
}
use tmux_a2a_postman.Gate.Policy.{Mode, advisory, warn_only, blocking, CommandPolicy}

-- the text of a mode
unfoldable pub mode_name : Mode → Text
mode_name advisory = codes "advisory"
mode_name warn_only = codes "warn-only"
mode_name blocking = codes "blocking"

-- what a format prints, piece by piece
unfoldable pub printed : List Text → Text
printed [] = []
printed (t ∷ ts) = t ++ printed ts

-- the Builder named body
unfoldable pub request_body : CommandPolicy → Text → Text → Text → Bool → Text
request_body p thread_id hash reason store_command_text = printed (
    codes "Command approval requested by "
    ∷ p.requester
    ∷ codes " (mode: "
    ∷ mode_name p.mode
    ∷ codes ", label: "
    ∷ p.label
    ∷ codes ", category: "
    ∷ p.category
    ∷ codes ").\n\n"
    ∷ codes "Command hash: "
    ∷ hash
    ∷ codes "\n"
    ∷ (if is_empty (trim_space reason)
        then []
        else printed (codes "Requester-provided reason: " ∷ reason ∷ codes "\n" ∷ []))
    ∷ (if store_command_text
        then codes
            "\nThe full command text is stored in this session's durable audit journal (--store-command-text was set); it is not repeated in this message.\n"
        else [])
    ∷ codes
        "\nTo record your decision, reply with a body starting with `APPROVED: <reason>` or `NOT APPROVED: <reason>`, and keep this thread id in your reply's frontmatter:\n\nthread_id: "
    ∷ thread_id
    ∷ codes "\n"
    ∷ [])

-- What the request is written from, beside the policy
pub record RequestParams : Type 0 where
  pub context_id : Text
  pub command_approver_node : Text
  pub filename : Text
  pub input_request_id : Text
  pub thread_id : Text
  pub timestamp : Text

-- content, with the text of the body
unfoldable pub request_content : Text → RequestParams → Text → Text
request_content requester q body = printed (
    codes "---\nparams:\n  contextId: "
    ∷ q.context_id
    ∷ codes "\n  from: "
    ∷ requester
    ∷ codes "\n  to: "
    ∷ q.command_approver_node
    ∷ codes "\n  messageId: "
    ∷ q.filename
    ∷ codes "\n  replyPolicy: required\n  input_request_id: "
    ∷ q.input_request_id
    ∷ codes "\n  thread_id: "
    ∷ q.thread_id
    ∷ codes "\n  timestamp: "
    ∷ q.timestamp
    ∷ codes "\n---\n\n"
    ∷ body
    ∷ codes "\n"
    ∷ [])

-- what is written to the draft and moved into post
unfoldable pub approval_request : CommandPolicy → RequestParams → Text → Text → Bool → Text
approval_request p q hash reason store_command_text =
    request_content p.requester q (request_body p q.thread_id hash reason store_command_text)
