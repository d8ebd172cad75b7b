-- ===== src/Creation/Saving.antt =====
-- SavePodToFile of internal/compute/podhandler/podhandler.go, on the files of the directory of the
-- pod. The encoded pod, the name that os.CreateTemp chooses, and which calls succeed are arguments.
use hpktainer.Base.{
  Bool, Option, none, some, List, [], Bytes, ◌≡◌, refl, arith, beq, beq_eq, if◌then◌else◌, lookup,
  insert, delete, lookup-insert, lookup-delete,
}

-- The files, by their paths.
abbrev pub Files : Type 0
Files = List (Bytes × Bytes)

-- Whether the calls succeed; `encoded` is the pod as JSON unless it cannot be encoded. A write that
-- fails may leave a part of the text.
pub record Calls : Type 0 where
  pub encoded : Option Bytes
  pub tmp_file : Option Bytes
  pub written : Bytes
  pub writes : Bool
  pub chmods : Bool
  pub closes : Bool
  pub renames : Bool

pub data SaveError : Type 0 where
  empty_pod not_encoded no_temp_file not_written not_chmoded not_closed not_renamed : SaveError

pub data Saved : Type 0 where
  saved : Saved
  not_saved : SaveError → Saved

-- os.Rename of a file that is there.
rename_file : Bytes → Bytes → Bytes → Files → Files
rename_file tmp path text files = insert path text (delete tmp files)

-- From f.Write on: the file is there and empty.
fill : Calls → Bytes → Bytes → Bytes → Files → Files × Saved
unfolding rename_file
fill c path tmp text files =
    if c.writes
    then (if c.chmods
        then (if c.closes
            then (if c.renames
                then (rename_file tmp path text (insert tmp text files), saved)
                else (delete tmp (insert tmp text files), not_saved not_renamed))
            else (delete tmp (insert tmp text files), not_saved not_closed))
        else (delete tmp (insert tmp text files), not_saved not_chmoded))
    else (delete tmp (insert tmp c.written files), not_saved not_written)

with_temp : Calls → Bytes → Bytes → Option Bytes → Files → Files × Saved
unfolding fill
with_temp c path text none files = (files, not_saved no_temp_file)
with_temp c path text (some tmp) files = fill c path tmp text (insert tmp [] files)

with_text : Calls → Bytes → Option Bytes → Files → Files × Saved
unfolding with_temp
with_text c path none files = (files, not_saved not_encoded)
with_text c path (some text) files = with_temp c path text c.tmp_file files

-- SavePodToFile of a pod whose file has the path, unless it is nil.
unfoldable pub save_pod_to_file : Calls → Option Bytes → Files → Files × Saved
unfolding with_text
save_pod_to_file c none files = (files, not_saved empty_pod)
save_pod_to_file c (some path) files = with_text c path c.encoded files

delete-insert :
    (tmp text j : Bytes) (files : Files)
    → lookup tmp files ≡ none
    → lookup j (delete tmp (insert tmp text (insert tmp [] files))) ≡ lookup j files
delete-insert tmp text j files a = ground (
  arith,
  lookup-delete tmp j (insert tmp text (insert tmp [] files)),
  lookup-insert tmp j text (insert tmp [] files),
  lookup-insert tmp j [] files,
  beq_eq tmp j,
  a,
)

renamed :
    (path tmp text j : Bytes) (files : Files)
    → lookup tmp files ≡ none
    → lookup j (rename_file tmp path text (insert tmp text (insert tmp [] files)))
      ≡ (if beq path j then some text else lookup j files)
unfolding rename_file
renamed path tmp text j files a = ground (
  arith,
  lookup-insert path j text (delete tmp (insert tmp text (insert tmp [] files))),
  delete-insert tmp text j files a,
)

-- The files after a call, as its result says.
abbrev pub expected : Bytes → Option Bytes → Bytes → Files → Saved → Option Bytes
expected path encoded j files saved = if beq path j then encoded else lookup j files
expected path encoded j files (not_saved e) = lookup j files

fill-lookup :
    (c : Calls) (path tmp text j : Bytes) (files : Files)
    → lookup tmp files ≡ none
    → let r = fill c path tmp text (insert tmp [] files) in
      lookup j r.0 ≡ expected path (some text) j files r.1
unfolding fill
fill-lookup c path tmp text j files a = ground (
  arith,
  renamed path tmp text j files a,
  delete-insert tmp text j files a,
  delete-insert tmp c.written j files a,
)

with_temp-lookup :
    (c : Calls) (path text j : Bytes) (tmp : Option Bytes) (files : Files)
    → ((name : Bytes) → tmp ≡ some name → lookup name files ≡ none)
    → let r = with_temp c path text tmp files in
      lookup j r.0 ≡ expected path (some text) j files r.1
unfolding with_temp
with_temp-lookup c path text j none files a = refl
with_temp-lookup c path text j (some tmp) files a = fill-lookup c path tmp text j files (a tmp refl)

with_text-lookup :
    (c : Calls) (path j : Bytes) (encoded : Option Bytes) (files : Files)
    → ((name : Bytes) → c.tmp_file ≡ some name → lookup name files ≡ none)
    → let r = with_text c path encoded files in lookup j r.0 ≡ expected path encoded j files r.1
unfolding with_text
with_text-lookup c path j none files a = refl
with_text-lookup c path j (some text) files a = with_temp-lookup c path text j c.tmp_file files a

-- A pod is saved as a whole or not at all: if the file that os.CreateTemp makes is a new one, then
-- after a success the file of the pod holds the encoded pod, and after an error every file is as it was;
-- in both cases the other files are as they were, and no temporary file is left.
pub save_pod_to_file-expected :
    (c : Calls) (path j : Bytes) (files : Files)
    → ((name : Bytes) → c.tmp_file ≡ some name → lookup name files ≡ none)
    → let r = save_pod_to_file c (some path) files in
      lookup j r.0 ≡ expected path c.encoded j files r.1
unfolding save_pod_to_file
save_pod_to_file-expected c path j files a = with_text-lookup c path j c.encoded files a
