-- ===== src/Store/Archiving.antt =====
-- What becomes of a message that is archived: internal/store/mailbox_store.go.
use tmux_a2a_postman.Base.{
  lookup-delete_self, lookup-delete_other, lookup-insert_other, lookup-insert_self, Bool, true,
  false, not, ◌||◌, Option, none, some, Text, lookup, insert, delete, lookup-insert, has_key,
  Result, ok, err, arith, ◌≡◌, ◌≢◌, refl, beq_iff, inl, inr, Bool-cases, Option-cases, sym, ap, ◌∙◌,
  subst,
}
use tmux_a2a_postman.Store.{
  mkdir_failed, stat_failed, remove_failed, rename_failed, Files, FileEntry, directory, Faults,
  StoreError, dangling_symlink, is_found, is_directory_at, InboxArchivePlan, rename_file, mkdir_all,
  archive_in, archive_with_ops, Archived,
}

ok_path : (p q : Text) → ◌≡◌ {A = Result StoreError Text} (ok p) (ok q) → p ≡ q
ok_path p q h = cc

-- an entry, or the message if there is none or it is a link that leads nowhere
abbrev pub entry_or : FileEntry → Option FileEntry → Option FileEntry
entry_or m none = some m
entry_or m (some dangling_symlink) = some m
entry_or m (some e) = some e

entry_or-found : (m : FileEntry) (o : Option FileEntry) → is_found o ≡ true → entry_or m o ≡ o
entry_or-found m o h = ground arith

entry_or-lost : (m : FileEntry) (o : Option FileEntry) → is_found o ≡ false → entry_or m o ≡ some m
entry_or-lost m o h = ground arith

is_directory_at-lost : (o : Option FileEntry) → is_found o ≡ false → is_directory_at o ≡ false
is_directory_at-lost o h = ground arith

module _ (plan : InboxArchivePlan) (message : FileEntry) (before : Files) where
  -- The message is no more in the inbox; what is at the read path is what was there, or the message.
  -- Where archiving fails, the message is in the inbox, and nothing is at the read path that was not.
  -- No other path is changed, but for the read directory.
  pub record IsArchived (a : Archived) : Type 0 where
    pub moved :
        (p : Text)
        → a.0 ≡ ok p
        → (p ≡ plan.read_path)
          × (lookup plan.source_path a.1 ≡ none)
          × (lookup plan.read_path a.1 ≡ entry_or message (lookup plan.read_path before))
    pub kept :
        (e : StoreError)
        → a.0 ≡ err e
        → (lookup plan.source_path a.1 ≡ some message)
          × (lookup plan.read_path a.1 ≡ lookup plan.read_path before)
    pub others :
        (q : Text)
        → q ≢ plan.source_path
        → q ≢ plan.read_path
        → q ≢ plan.read_dir
        → lookup q a.1 ≡ lookup q before

  -- what `mkdir_all` may change
  abbrev IsMade : Files → Type 0
  IsMade files = (q : Text) → q ≢ plan.read_dir → lookup q files ≡ lookup q before

  mkdir_all-IsMade :
      (fails : Bool) (files : Files)
      → mkdir_all fails plan.read_dir before ≡ some files
      → IsMade files
  unfolding mkdir_all
  mkdir_all-IsMade fails files h q other =
      ground
        (arith, h, lookup-insert plan.read_dir q directory before, beq_iff plan.read_dir q, other)

  module _ (f : Faults) (files : Files) (is_made : IsMade files)
      (held : lookup plan.source_path before ≡ some message)
      (source_read : plan.source_path ≢ plan.read_path)
      (source_dir : plan.source_path ≢ plan.read_dir)
      (read_dir : plan.read_path ≢ plan.read_dir) where
    failing : (e : StoreError) → IsArchived (err e, files)
    failing e = record {
      moved = λ p h. absurd cc;
      kept = λ e' h. (is_made plan.source_path source_dir ∙ held, is_made plan.read_path read_dir);
      others = λ q a b c. is_made q c;
    }

    removing :
        is_found (lookup plan.read_path files) ≡ true
        → IsArchived (ok plan.read_path, delete plan.source_path files)
    removing there = record {
      moved = λ p h. (
        sym (ok_path plan.read_path p h),
        lookup-delete_self plan.source_path files,
        lookup-delete_other plan.source_path plan.read_path files source_read
            ∙ sym (entry_or-found message (lookup plan.read_path files) there)
            ∙ ap (entry_or message) (is_made plan.read_path read_dir),
      );
      kept = λ e' h. absurd cc;
      others =
          λ q a b c. lookup-delete_other plan.source_path q files (λ h. a (sym h)) ∙ is_made q c;
    }

    renaming :
        is_found (lookup plan.read_path files) ≡ false
        → IsArchived
            (ok plan.read_path, insert plan.read_path message (delete plan.source_path files))
    renaming free = record {
      moved = λ p h. (
        sym (ok_path plan.read_path p h),
        lookup-insert_other plan.read_path plan.source_path message (delete plan.source_path files)
              (λ h. source_read (sym h))
            ∙ lookup-delete_self plan.source_path files,
        lookup-insert_self plan.read_path message (delete plan.source_path files)
            ∙ sym (entry_or-lost message (lookup plan.read_path files) free)
            ∙ ap (entry_or message) (is_made plan.read_path read_dir),
      );
      kept = λ e' h. absurd cc;
      others = λ q a b c.
          lookup-insert_other plan.read_path q message (delete plan.source_path files)
            (λ h. b (sym h))
          ∙ lookup-delete_other plan.source_path q files (λ h. a (sym h))
          ∙ is_made q c;
    }

    archive_in-IsArchived : IsArchived (archive_in f plan files)
    archive_in-IsArchived = elim (Bool-cases f.stat) [
      | inl e ↦
          let same : archive_in f plan files ≡ (err stat_failed, files) =
            unfold archive_in in ground (arith, e) in
          subst IsArchived (sym same) (failing stat_failed)
      | inr e ↦ elim (Bool-cases (is_found (lookup plan.read_path files))) [
        | inl q ↦ elim (Bool-cases (f.remove || not (has_key plan.source_path files))) [
          | inl r ↦
              let same : archive_in f plan files ≡ (err remove_failed, files) =
                unfold archive_in in ground (arith, e, q, r) in
              subst IsArchived (sym same) (failing remove_failed)
          | inr r ↦
              let same : archive_in f plan files
                  ≡ (ok plan.read_path, delete plan.source_path files) =
                unfold archive_in in ground (arith, e, q, r) in
              subst IsArchived (sym same) (removing q)
        ]
        | inr q ↦ elim (Bool-cases f.rename) [
          | inl r ↦
              let same : archive_in f plan files ≡ (err rename_failed, files) =
                unfold archive_in rename_file in ground (arith, e, q, r) in
              subst IsArchived (sym same) (failing rename_failed)
          | inr r ↦
              let here = is_made plan.source_path source_dir ∙ held in
              let free = is_directory_at-lost (lookup plan.read_path files) q in
              let same : archive_in f plan files ≡ (
                ok plan.read_path,
                insert plan.read_path message (delete plan.source_path files),
              ) =
                unfold archive_in rename_file in ground (arith, e, q, r, here, free) in
              subst IsArchived (sym same) (renaming q)
        ]
      ]
    ]

-- Archiving moves the message to the read path, also in place of a link that leads nowhere, unless
-- something else is there already, which is kept and the message dropped, and it reports success only
-- then. Where it fails, the message stays in the inbox and
-- the read path as it was. It changes no other path, but makes the read directory. The three paths of the
-- plan are to differ.
pub archive_with_ops-IsArchived :
    (f : Faults) (plan : InboxArchivePlan) (message : FileEntry) (before : Files)
    → lookup plan.source_path before ≡ some message
    → plan.source_path ≢ plan.read_path
    → plan.source_path ≢ plan.read_dir
    → plan.read_path ≢ plan.read_dir
    → IsArchived plan message before (archive_with_ops f plan before)
archive_with_ops-IsArchived f plan message before held a b c =
    elim (Option-cases (mkdir_all f.mkdir plan.read_dir before)) [
      | inl q ↦
          let same : archive_with_ops f plan before ≡ (err mkdir_failed, before) =
            unfold archive_with_ops in ground (arith, q) in
          subst (IsArchived plan message before) (sym same)
            (failing plan message before f before (λ q h. refl) held a b c mkdir_failed)
      | inr (made, q) ↦
          let same : archive_with_ops f plan before ≡ archive_in f plan made =
            unfold archive_with_ops in ground (arith, q) in
          subst (IsArchived plan message before) (sym same) (
            archive_in-IsArchived plan message before f made
              (mkdir_all-IsMade plan message before f.mkdir made q) held a b c)
    ]
