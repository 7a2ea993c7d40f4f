-- ===== src/Store/DeadLetters.antt =====
-- Where dead letters may go: internal/store/mailbox_store.go.
use tmux_a2a_postman.Base.{
  ◌||◌, false, none, some, Text, lookup, insert, delete, lookup-insert_self, lookup-insert_other,
  lookup-delete_self, ok, arith, ◌≡◌, ◌≢◌, inl, inr, Bool-cases, Option-cases, sym, ap, ◌∙◌,
  path_dir,
}
use tmux_a2a_postman.Store.{
  is_directory_at, Files, FileEntry, Faults, is_symlink, validate_dead_letter_target,
  move_dead_letter, rename_file,
}

-- the directory of the target is there, and neither it nor what is at the target is a symbolic link
abbrev pub IsPlain : Text → Files → Type 0
IsPlain target files =
    ((dir : FileEntry) × (lookup (path_dir target) files ≡ some dir) × (is_symlink dir ≡ false))
    × ((e : FileEntry) → lookup target files ≡ some e → is_symlink e ≡ false)

validate-IsPlain :
    (f : Faults) (target : Text) (files : Files)
    → validate_dead_letter_target f target files ≡ none
    → IsPlain target files
unfolding validate_dead_letter_target
validate-IsPlain f target files h = elim (Option-cases (lookup (path_dir target) files)) [
  | inl q ↦ absurd (ground (arith, h, q))
  | inr (dir, q) ↦ ((dir, q, ground (arith, h, q)), λ e p. ground (arith, h, q, p))
]

-- A message is moved to the dead letters only in a directory that is no symbolic link, onto a target
-- that is none; then it is at the target, and no more at its source, if the two paths differ.
pub move_dead_letter-IsPlain :
    (f : Faults) (source target : Text) (files moved : Files)
    → source ≢ target
    → move_dead_letter f source target files ≡ ok moved
    → IsPlain target files
      × (lookup target moved ≡ lookup source files)
      × (lookup source moved ≡ none)
unfolding move_dead_letter rename_file
move_dead_letter-IsPlain f source target files moved other h =
    elim (Option-cases (validate_dead_letter_target f target files)) [
      | inr (e, q) ↦ absurd (ground (arith, h, q))
      | inl q ↦ elim (Bool-cases (f.rename || is_directory_at (lookup target files))) [
        | inl r ↦ absurd (ground (arith, h, q, r))
        | inr r ↦ elim (Option-cases (lookup source files)) [
          | inl g ↦ absurd (ground (arith, h, q, r, g))
          | inr (e, g) ↦
              let same : moved ≡ insert target e (delete source files) =
                ground (arith, h, q, r, g) in
              (
                validate-IsPlain f target files q,
                ap (lookup target) same ∙ lookup-insert_self target e (delete source files) ∙ sym g,
                ap (lookup source) same
                    ∙ lookup-insert_other target source e (delete source files) (λ p. other (sym p))
                    ∙ lookup-delete_self source files,
              )
        ]
      ]
    ]
