-- ===== src/Envelope/Policy.antt =====
-- Whether a message asks for a reply: ResolveReplyPolicyFromMetadata of internal/envelope/metadata.go,
-- with strings.ToLower and strings.EqualFold against a text of small ASCII letters.
use tmux_a2a_postman.Base.{
  Bool, true, false, ◌&&◌, ◌||◌, Option, none, some, Text, codes, List, [], ◌∷◌, is_empty, any,
  if◌then◌else◌, eqb, leb, ℕ, ◌+◌, trim_space,
}
use tmux_a2a_postman.Envelope.{Metadata}

-- a letter of A to Z as the small one
abbrev small : ℕ → ℕ
small c = if leb b'A' c && leb c b'Z' then c + 32 else c

-- The next rune of a text in UTF-8 in lower case, if that is ASCII, with the rest. Two runes beyond
-- ASCII have such a lower case: U+0130, which is i, and U+212A, which is k.
unfoldable pub next_lower : Text → Option (ℕ × Text)
next_lower [] = none
next_lower (a ∷ b ∷ []) =
    if eqb a 0xc4 && eqb b 0xb0 then some (b'i', []) else some (small a, b ∷ [])
next_lower (a ∷ b ∷ c ∷ s) =
    if eqb a 0xc4 && eqb b 0xb0
    then some (b'i', c ∷ s)
    else if eqb a 0xe2 && (eqb b 0x84 && eqb c 0xaa)
    then some (b'k', s)
    else some (small a, b ∷ c ∷ s)
next_lower (a ∷ []) = some (small a, [])

-- the same for strings.EqualFold, where U+017F folds to s and U+0130 only to itself
unfoldable pub next_fold : Text → Option (ℕ × Text)
next_fold [] = none
next_fold (a ∷ b ∷ []) =
    if eqb a 0xc5 && eqb b 0xbf then some (b's', []) else some (small a, b ∷ [])
next_fold (a ∷ b ∷ c ∷ s) =
    if eqb a 0xc5 && eqb b 0xbf
    then some (b's', c ∷ s)
    else if eqb a 0xe2 && (eqb b 0x84 && eqb c 0xaa)
    then some (b'k', s)
    else some (small a, b ∷ c ∷ s)
next_fold (a ∷ []) = some (small a, [])

-- whether a text reads as an expected one
unfoldable pub reads_as : (Text → Option (ℕ × Text)) → Text → Text → Bool
reads_as next [] t = is_empty t
reads_as next (x ∷ xs) t = elim (next t) [
  | none ↦ false
  | some (c, rest) ↦ eqb c x && reads_as next xs rest
]

-- strings.ToLower(t) == expected
abbrev pub lower_is : Text → Text → Bool
lower_is t expected = reads_as next_lower expected t

-- strings.EqualFold(t, expected)
abbrev pub equal_fold : Text → Text → Bool
equal_fold t expected = reads_as next_fold expected t

abbrev pub lower_in : Text → List Text → Bool
lower_in t names = any (lower_is t) names

-- What the policy comes to: "none" or "required"
pub data ReplyPolicy : Type 0 where
  no_reply required : ReplyPolicy

-- ResolveReplyPolicyFromMetadata. The types that ask for nothing and the body have no case, since
-- what they do not decide comes to "none" too.
unfoldable pub resolve_reply_policy : Metadata → ReplyPolicy
resolve_reply_policy m =
    let policy = trim_space m.reply_policy in
    if lower_in policy (codes "none" ∷ codes "no_reply" ∷ codes "no-reply" ∷ [])
    then no_reply
    else if lower_is policy (codes "required")
    then required
    else if equal_fold m.from (codes "postman") || equal_fold m.from (codes "daemon")
    then no_reply
    else if lower_in (trim_space m.message_type)
        (codes "approval_request" ∷ codes "status_request" ∷ codes "reply_request" ∷ [])
    then required
    else no_reply

abbrev pub is_required : ReplyPolicy → Bool
is_required no_reply = false
is_required required = true
