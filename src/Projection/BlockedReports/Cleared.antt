-- ===== src/Projection/BlockedReports/Cleared.antt =====
-- Whose reports a message takes away.
use tmux_a2a_postman.Base.{
  lookup-insert, inl, inr, Option-cases, some, Option-cases, beq_iff, ◌≢◌, refl, contains_byte,
  ◌++◌, subst, sym, ◌∙◌, Bool, false, some, Text, [], ◌∷◌, ◌≡◌, Map, lookup, arith,
}
use tmux_a2a_postman.Projection.BlockedReports.{
  report_with, is_cleared_at_end, on_report, add_report, Metadata, blocked_report_key, is_cleared,
  blocked_report_from_metadata, Report, remove_if,
}

remove_if_keeps :
    (p : Report → Bool) (k : Text) (r : Report) (m : Map Report)
    → p r ≡ false
    → lookup k m ≡ some r
    → lookup k (remove_if p m) ≡ some r
unfolding remove_if lookup
remove_if_keeps p k r [] h l = l
remove_if_keeps p k r ((j, q) ∷ m) h l = ground (arith, remove_if_keeps p k r m)

-- Two texts without the separator that stand before it in one text are the same.
same_before :
    (a b x y : Text)
    → contains_byte 0 a ≡ false
    → contains_byte 0 b ≡ false
    → a ++ (0 ∷ x) ≡ b ++ (0 ∷ y)
    → a ≡ b
unfolding contains_byte
same_before [] [] x y ha hb e = refl
same_before [] (d ∷ b) x y ha hb e = ground arith
same_before (c ∷ a) [] x y ha hb e = ground arith
same_before (c ∷ a) (d ∷ b) x y ha hb e = ground (arith, same_before a b x y)

other_key :
    (r q : Report)
    → r.node ≢ q.node
    → contains_byte 0 r.node ≡ false
    → contains_byte 0 q.node ≡ false
    → blocked_report_key r.node r.scope r.scope_id ≢ blocked_report_key q.node q.scope q.scope_id
unfolding blocked_report_key
other_key r q n hr hq e = n (same_before r.node q.node _ _ hr hq e)

report_node :
    (m : Metadata) (at : Text) (q : Report)
    → blocked_report_from_metadata m at ≡ some q
    → q.node ≡ m.from
unfolding blocked_report_from_metadata report_with
report_node m at q e = ground arith

add_report_keeps :
    (m : Metadata) (at k : Text) (r : Report) (reports : Map Report)
    → lookup k reports ≡ some r
    → ((q : Report) → q.node ≡ m.from → k ≢ blocked_report_key q.node q.scope q.scope_id)
    → lookup k (add_report (blocked_report_from_metadata m at) reports) ≡ some r
unfolding add_report
add_report_keeps m at k r reports l other =
    elim (Option-cases (blocked_report_from_metadata m at)) [
      | inl n ↦ ground arith
      | inr (q, e) ↦
          let n = other q (report_node m at q e) in
          ground (
            arith,
            n,
            beq_iff (blocked_report_key q.node q.scope q.scope_id) k,
            lookup-insert (blocked_report_key q.node q.scope q.scope_id) k q reports,
          )
    ]

not_cleared :
    (m : Metadata) (r : Report)
    → r.node ≢ m.from
    → (is_cleared m r ≡ false) × (is_cleared_at_end m r ≡ false)
unfolding is_cleared is_cleared_at_end
not_cleared m r n = ground (arith, beq_iff r.node m.from, n)

other_keys :
    (m : Metadata) (r q : Report)
    → r.node ≢ m.from
    → contains_byte 0 r.node ≡ false
    → contains_byte 0 m.from ≡ false
    → q.node ≡ m.from
    → blocked_report_key r.node r.scope r.scope_id ≢ blocked_report_key q.node q.scope q.scope_id
other_keys m r q n hr hm e =
    other_key r q (λ p. n (p ∙ e)) hr (subst (λ t. contains_byte 0 t ≡ false) (sym e) hm)

-- A message neither clears nor replaces the open report of another node, if no name holds a NUL byte.
pub on_report_keeps_others :
    (m : Metadata) (at : Text) (r : Report) (reports : Map Report)
    → r.node ≢ m.from
    → contains_byte 0 r.node ≡ false
    → contains_byte 0 m.from ≡ false
    → lookup (blocked_report_key r.node r.scope r.scope_id) reports ≡ some r
    → lookup (blocked_report_key r.node r.scope r.scope_id) (on_report m at reports) ≡ some r
unfolding on_report
on_report_keeps_others m at r reports n hr hm l =
    let k = blocked_report_key r.node r.scope r.scope_id in
    let (kept, kept_at_end) = not_cleared m r n in
    ground (
      arith,
      remove_if_keeps (is_cleared m) k r reports kept l,
      remove_if_keeps (is_cleared_at_end m) k r reports kept_at_end l,
      add_report_keeps m at k r reports l (λ q e. other_keys m r q n hr hm e),
    )
