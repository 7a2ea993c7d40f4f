-- ===== src/Store/Tests.antt =====
-- The mailbox store on concrete files.
use tmux_a2a_postman.Base.{
  delete, insert, ne_of_beq, false, none, some, Text, [], ◌∷◌, codes, ◌≡◌, refl, ok, err, lookup,
  ◌==◌,
}
use tmux_a2a_postman.Store.{
  Files, regular, directory, symlink, Faults, plan_archive_inbox_message, InboxArchivePlan,
  archive_with_ops, plan_dead_letter_message, move_dead_letter, count_inbox_messages, is_a_symlink,
  not_in_inbox,
}
use tmux_a2a_postman.Store.Archiving.{IsArchived, archive_with_ops-IsArchived}
use tmux_a2a_postman.Store.DeadLetters.{IsPlain, move_dead_letter-IsPlain}

abbrev no_faults : Faults
no_faults = record {
  mkdir = false;
  stat = false;
  remove = false;
  rename = false;
  lstat_dir = false;
  lstat_target = false;
  write = false;
}

abbrev inbox_path : Text
inbox_path = codes "/s/inbox/bob/m.md"

abbrev plan : InboxArchivePlan
plan = record {
  source_path = inbox_path;
  filename = codes "m.md";
  session_dir = codes "/s";
  read_dir = codes "/s/read";
  read_path = codes "/s/read/m.md";
}

abbrev files : Files
files = (inbox_path, regular (codes "hi")) ∷ (codes "/s/dead-letter", directory) ∷ []

plans_read : plan_archive_inbox_message (codes "/s/inbox/./bob/m.md") (codes "m.md") ≡ ok plan
unfolding plan_archive_inbox_message ◌==◌
plans_read = refl

refuses_post :
    plan_archive_inbox_message (codes "/s/post/bob/m.md") (codes "m.md") ≡ err not_in_inbox
unfolding plan_archive_inbox_message ◌==◌
refuses_post = refl

dead_letter_path :
    (plan_dead_letter_message (codes "/s") (codes "m.md") (codes "-dl")).destination_path
    ≡ codes "/s/dead-letter/m-dl.md"
unfolding plan_dead_letter_message ◌==◌
dead_letter_path = refl

counts_messages :
    count_inbox_messages (
      some
        ((codes "m.md", regular []) ∷ (codes "x.txt", regular []) ∷ (codes "d.md", directory) ∷ []))
    ≡ 1
unfolding count_inbox_messages ◌==◌
counts_messages = refl

refuses_symlink :
    move_dead_letter no_faults inbox_path
      (codes "/s/dead-letter/m.md")
      ((inbox_path, regular []) ∷ (codes "/s/dead-letter", symlink) ∷ [])
    ≡ err is_a_symlink
unfolding move_dead_letter lookup ◌==◌
refuses_symlink = refl

archive_with_ops-IsArchived_example :
    IsArchived plan (regular (codes "hi")) files (archive_with_ops no_faults plan files)
unfolding lookup ◌==◌
archive_with_ops-IsArchived_example =
    archive_with_ops-IsArchived no_faults plan (regular (codes "hi")) files refl (λ h. cc) (λ h. cc)
      (λ h. cc)

move_dead_letter-IsPlain_example :
    IsPlain (codes "/s/dead-letter/m.md") files
    × (lookup (codes "/s/dead-letter/m.md") (
          (codes "/s/dead-letter", directory)
          ∷ (codes "/s/dead-letter/m.md", regular (codes "hi"))
          ∷ [])
        ≡ lookup inbox_path files)
    × (lookup inbox_path (
          (codes "/s/dead-letter", directory)
          ∷ (codes "/s/dead-letter/m.md", regular (codes "hi"))
          ∷ [])
        ≡ none)
unfolding move_dead_letter ◌==◌ lookup insert delete
move_dead_letter-IsPlain_example =
    move_dead_letter-IsPlain no_faults inbox_path (codes "/s/dead-letter/m.md") files
      ((codes "/s/dead-letter", directory)
        ∷ (codes "/s/dead-letter/m.md", regular (codes "hi"))
        ∷ [])
      (ne_of_beq inbox_path (codes "/s/dead-letter/m.md") refl) refl
