-- ===== src/CopyWindows.antt =====
-- deploy/kubernetes/summary-export/copy-windows.py: `copy_windows`. What `ls` prints, the archive
-- that `tar` writes, the failures of the disk, and Python's addition of numbers of which one is a float
-- are parameters; the output directory is there or not, with its files.
pub mod Numbers
pub mod Sorted
pub mod Reads
pub mod Complete
pub mod Directory
pub mod Copied
pub mod Main
use Prim.Native.Char.{code}
use otelcol_genai_sketches.Base.{
  ℕ, zero, suc, ◌+◌, String, Bool, true, false, List, [], ◌∷◌, ◌++◌, ◌||◌, ◌&&◌, not, if◌then◌else◌,
  Option, none, some, ◌==◌, leb, ltb, length, str_eq, one_of, all, keep, map,
}
use otelcol_genai_sketches.Base.Errors.{
  Result, ok, err, Error, raise_if, value_error, type_error, key_error, os_error, ◌>>=◌, ◌>>◌,
}
use otelcol_genai_sketches.Json.{Value, real, arr, dict, Fields, Double, get, has}
use otelcol_genai_sketches.Json.Equality.{value_eq}
use otelcol_genai_sketches.CopyWindows.Numbers.{number, sum, less, same_number, whole}
use otelcol_genai_sketches.Text.{is_digit, is_hex, eat}

-- `MAX_BYTES`
abbrev pub max_bytes : ℕ
max_bytes = 67108864

abbrev eat_hex : String → Bool
eat_hex s = elim (eat is_hex 32 s) [ some rest ↦ str_eq rest ".json" | none ↦ false ]

abbrev eat_dash : String → Bool
eat_dash s = elim (eat (λ c. c == 45) 1 s) [ some rest ↦ eat_hex rest | none ↦ false ]

-- `NAME.fullmatch(name)`
unfoldable pub is_name : String → Bool
is_name s = elim (eat is_digit 20 s) [ some rest ↦ eat_dash rest | none ↦ false ]

-- A member of the archive, with what `json.loads` makes of its content.
pub record Member : Type 0 where
  pub name : String
  pub is_file : Bool
  pub size : ℕ
  pub content : String
  pub document : Option Value

-- The size of the archive's file, its members, and the exception that ends their iteration, if any.
pub record Archive : Type 0 where
  pub file_size : ℕ
  pub members : List Member
  pub broken : Option Error

-- A window that is kept.
pub record Entry : Type 0 where
  pub name : String
  pub content : String
  pub start : Double
  pub document : Fields

-- `doc[k]`
abbrev pub lookup : String → Fields → Result Value
lookup k fs = if has k fs then ok (get k fs) else err key_error

-- The comparison of the observed interval with the window, which goes up to `total`.
abbrev pub observed : Member → Fields → Double → Double → Result (Option Entry)
observed m fs start total = lookup "observed_start_unix_nano" fs >>= λ first.
    if value_eq (real start) first
    then (lookup "observed_end_unix_nano" fs >>= λ last. ok (
        if value_eq (real total) last
        then some (record { name = m.name; content = m.content; start = start; document = fs })
        else none))
    else ok none

-- The tests of a window against the time; `and` and `or` stop early.
abbrev pub in_time : ℕ → Member → Fields → Double → Double → Double → Result (Option Entry)
in_time now m fs start duration total =
    if less (whole now) total
    then ok none
    else (lookup "emitted_at_unix_nano" fs >>= number >>= λ emitted.
        if less (whole now) emitted || not (less (whole 0) duration)
        then ok none
        else observed m fs start total)

module _ (float_add : Value → Value → Result Double) where
  unfoldable pub window : ℕ → Member → Option Value → Result (Option Entry)
  unfolding value_eq
  window now m none = err value_error
  window now m (some (dict fs)) = lookup "window_start_unix_nano" fs >>= λ first.
      lookup "window_duration_unix_nano" fs >>= λ length. number first >>= λ start.
      number length >>= λ duration.
      sum float_add first length >>= λ total. in_time now m fs start duration total
  window now m (some value) = err type_error

-- The variables of the loop.
pub record Reading : Type 0 where
  pub seen : List String
  pub size : ℕ
  pub documents : List Entry

abbrev pub as_list : Option Entry → List Entry
as_list none = []
as_list (some e) = e ∷ []

-- An entry that the archive should not have.
abbrev pub is_unexpected : List String → Reading → Member → Bool
is_unexpected names st m = not m.is_file || (not (one_of m.name names) || one_of m.name st.seen)

module _ (float_add : Value → Value → Result Double) where
  -- One round of the loop.
  unfoldable pub read_member : ℕ → List String → Reading → Member → Result Reading
  unfolding window
  read_member now names st m =
      raise_if (is_unexpected names st m) value_error
      >> (raise_if (ltb max_bytes (st.size + m.size)) value_error
          >> (window float_add now m m.document >>= λ entry. ok (record {
            seen = st.seen ++ m.name ∷ [];
            size = st.size + m.size;
            documents = st.documents ++ as_list entry;
          })))

  unfoldable pub read_members : ℕ → List String → Reading → List Member → Result Reading
  unfolding read_member
  read_members now names st [] = ok st
  read_members now names st (m ∷ ms) =
      read_member now names st m >>= λ next. read_members now names next ms

-- `documents.sort`, which is stable.
abbrev pub insert : Entry → List Entry → List Entry
insert e [] = e ∷ []
insert e (x ∷ xs) = let rest = insert e xs in if less x.start e.start then x ∷ rest else e ∷ x ∷ xs

unfoldable pub sort : List Entry → List Entry
sort [] = []
sort (x ∷ xs) = insert x (sort xs)

abbrev unhashable : Value → Bool
unhashable (arr vs) = true
unhashable (dict fs) = true
unhashable _ = false

-- The producer and the epoch, as a member of a set.
abbrev pub identity : Entry → Result (Value × Value)
identity e = lookup "producer_id" e.document >>= λ producer. lookup "epoch" e.document >>= λ epoch.
    raise_if (unhashable producer || unhashable epoch) type_error >> ok (producer, epoch)

abbrev pub same_identity : Value × Value → Value × Value → Bool
same_identity (p, e) (q, f) = value_eq p q && value_eq e f

abbrev pub identities : List Entry → Result (List (Value × Value))
identities [] = ok []
identities (e ∷ es) = identity e >>= λ i. identities es >>= λ is. ok (i ∷ is)

-- `len({…}) == 1`
abbrev pub all_same : List (Value × Value) → Bool
all_same [] = false
all_same (i ∷ is) = all (same_identity i) is

abbrev pub starts_differ : List Entry → Bool
starts_differ [] = true
starts_differ (e ∷ es) = all (λ f. not (same_number e.start f.start)) es && starts_differ es

-- After the loop, in the order of the archive.
unfoldable pub check_documents : List Entry → Result (List Entry)
unfolding sort value_eq
check_documents documents = identities documents >>= λ is.
    raise_if (not (all_same is)) value_error
    >> (raise_if (ltb (length documents) 2 || not (starts_differ (sort documents))) value_error
        >> ok (sort documents))

abbrev pub after_reading : List String → Option Error → Reading → Result (List Entry)
after_reading names (some e) st = err e
after_reading names none st =
    raise_if (not (all (λ n. one_of n st.seen) names)) value_error >> check_documents st.documents

abbrev pub check_names : List String → Result (List String)
check_names names = raise_if (length names == 0 || ltb 512 (length names)) value_error >> ok names

-- The names that `ls` prints and that are those of windows. The source sorts them for `tar`, which is
-- left to the parameter.
unfoldable pub listed_names : Result (List String) → Result (List String)
unfolding is_name
listed_names listing = listing >>= λ lines. check_names (keep is_name lines)

-- The windows of the archive.
unfoldable pub read_archive :
    (Value → Value → Result Double) → ℕ → List String → Archive → Result (List Entry)
unfolding read_members check_documents
read_archive float_add now names archive =
    raise_if (ltb (max_bytes + 2097152) archive.file_size) value_error
    >> (read_members float_add now names (record { seen = []; size = 0; documents = [] })
          archive.members
        >>= after_reading names archive.broken)

-- The files of the output directory.
abbrev pub Files : Type 0
Files = List (String × String)

-- How the disk fails: the making of the directory; the writing of a file, with what it leaves in it; the
-- removal of the temporary file; and that of the directory, with what it leaves.
pub record Disk : Type 0 where
  pub mkdir_fails : Option Error
  pub write_fails : String → Option (Error × String)
  pub unlink_fails : Option Error
  pub remove_fails : Option (Error × Files)

-- `temporary`
abbrev pub temporary : String
temporary = ".snapshot.tar"

abbrev pub has_file : String → Files → Bool
has_file n [] = false
has_file n ((f, content) ∷ files) = str_eq n f || has_file n files

abbrev pub without : String → Files → Files
without n [] = []
without n ((f, content) ∷ files) =
    let rest = without n files in if str_eq n f then rest else (f, content) ∷ rest

-- What a step returns or raises, with the files it leaves.
abbrev pub after :
    {A B : Type 0} → Result A × Files → (A → Files → Result B × Files) → Result B × Files
after (err e, files) next = (err e, files)
after (ok value, files) next = next value files

abbrev pub write_to : String → String → Files → Option (Error × String) → Result ℕ × Files
write_to n content files none = (ok 0, files ++ (n, content) ∷ [])
write_to n content files (some (e, part)) = (err e, files ++ (n, part) ∷ [])

-- `open("xb")` and `write`: a file that is there is an error.
unfoldable pub write_new : Disk → String → String → Files → Result ℕ × Files
write_new disk n content files =
    if has_file n files
    then (err os_error, files)
    else write_to n content files (disk.write_fails n)

unfoldable pub write_all : Disk → List Entry → Files → Result ℕ × Files
unfolding write_new
write_all disk [] files = (ok 0, files)
write_all disk (e ∷ es) files =
    after (write_new disk e.name e.content files) λ done next. write_all disk es next

-- `temporary.unlink(missing_ok=True)`
abbrev pub unlink : Option Error → Files → Result ℕ × Files
unlink none files = (ok 0, without temporary files)
unlink (some e) files = (err e, files)

-- What is returned or raised, and the output directory afterwards.
pub record Run : Type 0 where
  pub result : Result (List String × ℕ)
  pub directory : Option Files

-- `rmtree`, after an exception.
abbrev pub remove : Error → Option (Error × Files) → Run
remove e none = record { result = err e; directory = none }
remove e (some (other, left)) = record { result = err other; directory = some left }

-- The `except` clause.
abbrev pub settle : Disk → Result (List String × ℕ) × Files → Run
settle disk (err e, files) = remove e disk.remove_fails
settle disk (ok value, files) = record { result = ok value; directory = some files }

module _ (float_add : Value → Value → Result Double) (disk : Disk) (now : ℕ) where
  -- The body of `try`. `tar` gives what it has written, and how it and the opening of the archive end.
  unfoldable pub copy_files :
      Result (List String)
      → (List String → String × Result Archive)
      → Files
      → Result (List String × ℕ) × Files
  unfolding listed_names read_archive write_new write_all
  copy_files listing tar files =
      after (listed_names listing, files)
        λ names files₁. after (write_new disk temporary (tar names).0 files₁) λ opened files₂.
          after ((tar names).1 >>= read_archive float_add now names, files₂)
            λ entries files₃. after (write_all disk entries files₃) λ done files₄.
              after (unlink disk.unlink_fails files₄)
                λ gone files₅. (ok (map (λ e. e.name) entries, now), files₅)

  abbrev pub in_new :
      Option Error → Result (List String) → (List String → String × Result Archive) → Run
  in_new (some e) listing tar = record { result = err e; directory = none }
  in_new none listing tar = settle disk (copy_files listing tar [])

  -- A directory that is there is left alone.
  unfoldable pub copy_windows :
      Option Files → Result (List String) → (List String → String × Result Archive) → Run
  unfolding copy_files
  copy_windows (some files) listing tar = record { result = err os_error; directory = some files }
  copy_windows none listing tar = in_new disk.mkdir_fails listing tar
