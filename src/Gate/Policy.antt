-- ===== src/Gate/Policy.antt =====
-- The policy of a command: resolveCommandApprovalPolicy of internal/cli/execute_bash.go. A time to live
-- is a number of nanoseconds, where 0 stands for none or one that is not positive.
use tmux_a2a_postman.Base.{
  ℕ, Bool, ◌||◌, ◌&&◌, if◌then◌else◌, Option, none, some, Text, codes, List, [], ◌∷◌, ◌==◌,
  is_empty, trim_space, eqb, ◌*◌, ◌^◌,
}

pub data Mode : Type 0 where
  advisory warn_only blocking : Mode

-- an entry of the configuration's CommandApproval
pub record PolicyEntry : Type 0 where
  pub requester : Text
  pub label : Text
  pub category : Text
  pub reviewer : Text
  pub mode : Text
  pub approval_ttl : ℕ

-- resolvedCommandApprovalPolicy, and before its mode is checked with the mode's text
pub record CommandPolicy : Type 0 where
  pub requester : Text
  pub reviewer : Text
  pub mode : Mode
  pub label : Text
  pub category : Text
  pub ttl : ℕ

-- 15 * time.Minute
abbrev pub default_command_approval_ttl : ℕ
default_command_approval_ttl = 15 * 60 * 10 ^ 9

-- commandPolicyMatches
unfoldable pub command_policy_matches : Text → Text → Bool
command_policy_matches pattern value =
    let p = trim_space pattern in is_empty p || (p == codes "*" || p == value)

abbrev entry_matches : Text → Text → Text → PolicyEntry → Bool
entry_matches requester label category e =
    command_policy_matches e.requester requester
    && (command_policy_matches e.label label && command_policy_matches e.category category)

-- the loop: the first entry that matches
unfoldable pub first_match : Text → Text → Text → List PolicyEntry → Option PolicyEntry
first_match requester label category [] = none
first_match requester label category (e ∷ es) =
    let rest = first_match requester label category es in
    if entry_matches requester label category e then some e else rest

-- `if strings.TrimSpace(t) != "" { x = strings.TrimSpace(t) }`
abbrev override_text : Text → Text → Text
override_text x t = if is_empty (trim_space t) then x else trim_space t

abbrev override_ttl : ℕ → ℕ → ℕ
override_ttl x t = if eqb t 0 then x else t

abbrev entry_reviewer : Option PolicyEntry → Text
entry_reviewer none = []
entry_reviewer (some e) = e.reviewer

abbrev entry_mode : Option PolicyEntry → Text
entry_mode none = []
entry_mode (some e) = e.mode

abbrev entry_ttl : Option PolicyEntry → ℕ
entry_ttl none = 0
entry_ttl (some e) = e.approval_ttl

unfoldable pub mode_of : Text → Option Mode
mode_of t =
    if t == codes "advisory"
    then some advisory
    else if t == codes "warn-only"
    then some warn_only
    else if t == codes "blocking"
    then some blocking
    else none

-- the mode's text: the flag, else the entry's, else advisory
unfoldable pub mode_text : Text → Option PolicyEntry → Text
mode_text mode_flag entry =
    override_text (override_text (codes "advisory") (entry_mode entry)) mode_flag

-- resolveCommandApprovalPolicy; `none` is the error of an unsupported mode
unfoldable pub resolve_command_approval_policy :
    List PolicyEntry → Text → Text → Text → Text → Text → ℕ → Option CommandPolicy
resolve_command_approval_policy entries requester label category reviewer_flag mode_flag ttl =
    let entry = first_match requester label category entries in
    elim (mode_of (mode_text mode_flag entry)) [
      | none ↦ none
      | some mode ↦ some (record {
        requester = requester;
        reviewer =
            override_text (override_text (codes "unassigned") (entry_reviewer entry)) reviewer_flag;
        mode = mode;
        label = label;
        category = category;
        ttl = override_ttl (override_ttl default_command_approval_ttl (entry_ttl entry)) ttl;
      })
    ]
