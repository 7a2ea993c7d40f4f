-- ===== src/Store.antt =====
-- The mailbox store: internal/store/mailbox_store.go. The files are a map from paths to entries; whether
-- a call to the file system fails for another reason than a missing path is an argument.

pub mod Archiving
pub mod DeadLetters
pub mod Tests
use tmux_a2a_postman.Base.{
  ℕ, Bool, true, false, not, ◌||◌, Option, none, some, Text, List, [], ◌∷◌, ◌++◌, ◌==◌, is_empty,
  if◌then◌else◌, Map, lookup, insert, delete, has_key, codes, path_base, path_dir, path_clean,
  is_abs, strip_suffix, Result, ok, err, count_if,
}

pub data FileEntry : Type 0 where
  regular : Text → FileEntry
  directory : FileEntry
  symlink : FileEntry  -- a link that leads somewhere
  dangling_symlink : FileEntry

abbrev pub Files : Type 0
Files = Map FileEntry

abbrev pub is_symlink : FileEntry → Bool
is_symlink symlink = true
is_symlink dangling_symlink = true
is_symlink _ = false

pub data StoreError : Type 0 where
  source_is_empty source_is_relative bad_filename filename_mismatch not_in_inbox : StoreError
  mkdir_failed stat_failed remove_failed rename_failed lstat_failed write_failed is_a_symlink :
      StoreError

-- filepath.Join of two elements
unfoldable pub path_join : Text → Text → Text
unfolding path_clean
path_join a b =
    if is_empty a
    then (if is_empty b then [] else path_clean b)
    else if is_empty b
    then path_clean a
    else path_clean (a ++ (b'/' ∷ b))

-- strings.TrimSuffix
unfoldable pub trim_suffix : Text → Text → Text
unfolding strip_suffix
trim_suffix suffix s = elim (strip_suffix suffix s) [ none ↦ s | some x ↦ x ]

pub record DeadLetterPlan : Type 0 where
  pub session_dir : Text
  pub filename : Text
  pub suffix : Text
  pub dead_letter_dir : Text
  pub destination_path : Text

unfoldable pub plan_dead_letter_message : Text → Text → Text → DeadLetterPlan
unfolding path_join trim_suffix
plan_dead_letter_message session_dir filename suffix =
    let dir = path_join session_dir (codes "dead-letter") in
    record {
      session_dir = session_dir;
      filename = filename;
      suffix = suffix;
      dead_letter_dir = dir;
      destination_path =
          path_join dir (trim_suffix (codes ".md") filename ++ suffix ++ codes ".md");
    }

-- The calls that fail for another reason
pub record Faults : Type 0 where
  pub mkdir : Bool
  pub stat : Bool
  pub remove : Bool
  pub rename : Bool
  pub lstat_dir : Bool
  pub lstat_target : Bool
  pub write : Bool

abbrev pub is_directory_at : Option FileEntry → Bool
is_directory_at (some directory) = true
is_directory_at _ = false

-- os.Rename of a file: what is at the target is replaced, unless it is a directory.
unfoldable pub rename_file : Bool → Text → Text → Files → Option Files
rename_file fails source target files =
    if fails || is_directory_at (lookup target files) then none else elim (lookup source files) [
      | none ↦ none
      | some e ↦ some (insert target e (delete source files))
    ]

-- `none` is no error.
unfoldable pub validate_dead_letter_target : Faults → Text → Files → Option StoreError
unfolding path_dir
validate_dead_letter_target f target files =
    if f.lstat_dir then some lstat_failed else elim (lookup (path_dir target) files) [
      | none ↦ some lstat_failed
      | some dir ↦
          if is_symlink dir
          then some is_a_symlink
          else if f.lstat_target
          then some lstat_failed
          else elim (lookup target files) [
            | none ↦ none
            | some e ↦ if is_symlink e then some is_a_symlink else none
          ]
    ]

unfoldable pub move_dead_letter : Faults → Text → Text → Files → Result StoreError Files
unfolding validate_dead_letter_target rename_file
move_dead_letter f source target files = elim (validate_dead_letter_target f target files) [
  | some e ↦ err e
  | none ↦ elim (rename_file f.rename source target files) [
    | none ↦ err rename_failed
    | some files' ↦ ok files'
  ]
]

unfoldable pub write_dead_letter_file : Faults → Text → Text → Files → Result StoreError Files
unfolding validate_dead_letter_target
write_dead_letter_file f target content files = elim (validate_dead_letter_target f target files) [
  | some e ↦ err e
  | none ↦ if f.write then err write_failed else ok (insert target (regular content) files)
]

-- os.MkdirAll, where the parent is there, and a link that leads somewhere leads to a directory
unfoldable pub mkdir_all : Bool → Text → Files → Option Files
mkdir_all fails dir files = if fails then none else elim (lookup dir files) [
  | none ↦ some (insert dir directory files)
  | some e ↦ elim e [
    | directory ↦ some files
    | regular c ↦ none
    | symlink ↦ some files
    | dangling_symlink ↦ none
  ]
]

unfoldable pub deliver_post_to_inbox :
    Faults → Text → Text → Text → Files → Result StoreError (Text × Files)
unfolding mkdir_all rename_file path_join
deliver_post_to_inbox f post_path inbox filename files = elim (mkdir_all f.mkdir inbox files) [
  | none ↦ err mkdir_failed
  | some made ↦ elim (rename_file f.rename post_path (path_join inbox filename) made) [
    | none ↦ err rename_failed
    | some moved ↦ ok (path_join inbox filename, moved)
  ]
]

-- The names and entries of a directory, as os.ReadDir returns them; `none` if there is none.
unfoldable pub count_inbox_messages : Option (List (Text × FileEntry)) → ℕ
unfolding count_if strip_suffix
count_inbox_messages none = 0
count_inbox_messages (some entries) =
    count_if
      (λ (name, e). elim e [
        | directory ↦ false
        | regular c ↦ elim (strip_suffix (codes ".md") name) [ none ↦ false | some x ↦ true ]
        | symlink ↦ elim (strip_suffix (codes ".md") name) [ none ↦ false | some x ↦ true ]
        | dangling_symlink ↦ elim (strip_suffix (codes ".md") name) [ none ↦ false | some x ↦ true ]
      ])
      entries

pub record InboxArchivePlan : Type 0 where
  pub source_path : Text
  pub filename : Text
  pub session_dir : Text
  pub read_dir : Text
  pub read_path : Text

-- the plan once the source path is clean and ends with the filename
unfoldable pub plan_under_session : Text → Text → Result StoreError InboxArchivePlan
unfolding path_dir path_base path_join
plan_under_session source filename =
    let inbox_dir = path_dir (path_dir source) in
    let session_dir = path_dir inbox_dir in
    let read_dir = path_join session_dir (codes "read") in
    if not (path_base inbox_dir == codes "inbox")
      || (session_dir == codes "." || session_dir == codes "/")
    then err not_in_inbox
    else ok (record {
      source_path = source;
      filename = filename;
      session_dir = session_dir;
      read_dir = read_dir;
      read_path = path_join read_dir filename;
    })

unfoldable pub plan_archive_inbox_message : Text → Text → Result StoreError InboxArchivePlan
unfolding path_clean path_base plan_under_session
plan_archive_inbox_message abs_path filename =
    if is_empty abs_path
    then err source_is_empty
    else if not (is_abs abs_path)
    then err source_is_relative
    else if is_empty filename || not (filename == path_base filename)
    then err bad_filename
    else if not (path_base (path_clean abs_path) == filename)
    then err filename_mismatch
    else plan_under_session (path_clean abs_path) filename

-- What an archiving returns, with the files as it leaves them
abbrev pub Archived : Type 0
Archived = Result StoreError Text × Files

-- what os.Stat finds: it follows links
abbrev pub is_found : Option FileEntry → Bool
is_found none = false
is_found (some dangling_symlink) = false
is_found (some _) = true

-- The part behind the read directory: a message that is archived already is only removed from the inbox.
unfoldable pub archive_in : Faults → InboxArchivePlan → Files → Archived
unfolding rename_file
archive_in f plan files =
    if f.stat
    then (err stat_failed, files)
    else if is_found (lookup plan.read_path files)
    then (if f.remove || not (has_key plan.source_path files)
        then (err remove_failed, files)
        else (ok plan.read_path, delete plan.source_path files))
    else elim (rename_file f.rename plan.source_path plan.read_path files) [
      | none ↦ (err rename_failed, files)
      | some moved ↦ (ok plan.read_path, moved)
    ]

unfoldable pub archive_with_ops : Faults → InboxArchivePlan → Files → Archived
unfolding mkdir_all archive_in
archive_with_ops f plan files = elim (mkdir_all f.mkdir plan.read_dir files) [
  | none ↦ (err mkdir_failed, files)
  | some made ↦ archive_in f plan made
]

unfoldable pub archive_inbox_message : Faults → Text → Text → Files → Archived
unfolding plan_archive_inbox_message archive_with_ops
archive_inbox_message f abs_path filename files =
    elim (plan_archive_inbox_message abs_path filename) [
      | err e ↦ (err e, files)
      | ok plan ↦ archive_with_ops f plan files
    ]
