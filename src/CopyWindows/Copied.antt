-- ===== src/CopyWindows/Copied.antt =====
-- deploy/kubernetes/summary-export/copy-windows.py: what `copy_windows` leaves behind.
use mathlib.Core.List.{Permᴰ}
use mathlib.Core.List.Permᴰ as PermD
use otelcol_genai_sketches.Base.{
  ℕ, suc, ◌+◌, ◌≤◌, String, Bool, true, false, List, [], ◌∷◌, ◌++◌, ◌||◌, not, Option, none, some,
  ◌==◌, ltb, length, one_of, all, keep, map, ◌≡◌, refl, sym, ap, ◌∙◌, subst, arith,
}
use otelcol_genai_sketches.Base.Errors.{Result, ok, err, Error, raise_if, value_error, ◌>>◌, ◌>>=◌}
use otelcol_genai_sketches.Base.Errors.Laws.{>>=-ok, ok-inj, raise_if-ok}
use otelcol_genai_sketches.Json.{Value, Double}
use otelcol_genai_sketches.CopyWindows.{
  Archive, Entry, Reading, Files, Disk, max_bytes, is_name, sort, identities, all_same,
  starts_differ, check_documents, after_reading, read_archive, read_members, check_names,
  listed_names, temporary, write_new, write_all, unlink, settle, copy_files, in_new, copy_windows,
}
use otelcol_genai_sketches.CopyWindows.Sorted.{Ascending, AllNumbers, sort-Ascending, sort-Permᴰ}
use otelcol_genai_sketches.CopyWindows.Reads.{
  chosen, total_size, Expected, Reads, read_members-Reads, chosen-AllNumbers,
}
use otelcol_genai_sketches.CopyWindows.Directory.{
  after-ok, write_new-Adds, write_all-Adds, unlink-Removes,
}

-- The windows that are kept: those of the archive, in the order of their starts, of one producer and
-- epoch.
abbrev Documents : List Entry → List Entry → Type 0
Documents documents entries =
    (is : List (Value × Value)) × (identities documents ≡ ok is)
    × (all_same is ≡ true)
    × (2 ≤ length entries)
    × Ascending entries
    × Permᴰ entries documents

-- The archive holds exactly the files that were asked for, each once, and the windows are those of it
-- that are complete.
abbrev pub Selects :
    (Value → Value → Result Double) → ℕ → List String → Archive → List Entry → Type 0
Selects float_add now names archive entries =
    Expected names [] archive.members
    × (all (λ n. one_of n (map (λ m. m.name) archive.members)) names ≡ true)
    × (total_size archive.members ≤ max_bytes)
    × Documents (chosen float_add now archive.members) entries

length-Permᴰ : (xs ys : List Entry) → Permᴰ xs ys → length xs ≡ length ys
length-Permᴰ _ _ PermD.nil = refl
length-Permᴰ _ _ (PermD.cons {l₁ = xs} {l₂ = ys} e p) = ap suc (length-Permᴰ xs ys p)
length-Permᴰ _ _ (PermD.swap e f) = refl
length-Permᴰ _ _ (PermD.trans {l₁ = xs} {l₂ = ys} {l₃ = zs} p q) =
    length-Permᴰ xs ys p ∙ length-Permᴰ ys zs q

passed_not :
    (b : Bool) (r : Result (List Entry)) (es : List Entry)
    → (raise_if (not b) value_error >> r) ≡ ok es
    → (b ≡ true) × (r ≡ ok es)
passed_not true r es h = (refl, h)
passed_not false r es h = cc

check_documents-Documents :
    (documents entries : List Entry)
    → AllNumbers documents
    → check_documents documents ≡ ok entries
    → Documents documents entries
unfolding check_documents
check_documents-Documents documents entries numbers h =
    let (is, found, rest) = >>=-ok (identities documents) _ entries h in
    let (same, sorted) = passed_not (all_same is) _ entries rest in
    let (enough, kept) =
      raise_if-ok (ltb (length documents) 2 || not (starts_differ (sort documents))) value_error _
        entries sorted in
    let two : 2 ≤ length documents = ground arith in
    let differ : starts_differ (sort documents) ≡ true = ground arith in
    let permuted = sort-Permᴰ documents in
    subst (Documents documents) (ok-inj (sort documents) entries kept) (
      is,
      found,
      same,
      subst (λ n. 2 ≤ n) (sym (length-Permᴰ (sort documents) documents permuted)) two,
      sort-Ascending documents numbers differ,
      permuted,
    )

abbrev start_reading : Reading
start_reading = record { seen = []; size = 0; documents = [] }

module _ (float_add : Value → Value → Result Double) (now : ℕ) (names : List String) where
  after_reading-Selects :
      (archive : Archive) (last : Reading) (entries : List Entry) (broken : Option Error)
      → Reads float_add now names start_reading archive.members last
      → after_reading names broken last ≡ ok entries
      → Selects float_add now names archive entries
  after_reading-Selects archive last entries (some e) reads h = cc
  after_reading-Selects archive last entries none reads h =
      let bounded : 0 + total_size archive.members ≤ max_bytes =
        subst (λ n. n ≤ max_bytes) reads.size (reads.bounded (omega arith)) in
      let fits : total_size archive.members ≤ max_bytes = omega arith in
      let (seen, checked) = passed_not (all (λ n. one_of n last.seen) names) _ entries h in
      let numbers =
        subst AllNumbers (sym reads.documents) (chosen-AllNumbers float_add now archive.members) in
      (
        reads.expected,
        subst (λ s. all (λ n. one_of n s) names ≡ true) reads.seen seen,
        fits,
        subst (λ d. Documents d entries) reads.documents
            (check_documents-Documents last.documents entries numbers checked),
      )

  read_archive-Selects :
      (archive : Archive) (entries : List Entry)
      → read_archive float_add now names archive ≡ ok entries
      → Selects float_add now names archive entries
  unfolding read_archive
  read_archive-Selects archive entries h =
      let (small, rest) =
        raise_if-ok (ltb (max_bytes + 2097152) archive.file_size) value_error _ entries h in
      let (last, read, checked) =
        >>=-ok (read_members float_add now names start_reading archive.members) _ entries rest in
      after_reading-Selects archive last entries archive.broken
        (read_members-Reads float_add now names start_reading last archive.members read) checked

-- What a copy says of its listing and archive.
abbrev pub Selected :
    (Value → Value → Result Double)
    → ℕ
    → Result (List String)
    → (List String → String × Result Archive)
    → List Entry
    → Type 0
Selected float_add now listing tar entries =
    (lines : List String) × (archive : Archive) × (listing ≡ ok lines)
    × (1 ≤ length (keep is_name lines))
    × (length (keep is_name lines) ≤ 512)
    × ((tar (keep is_name lines)).1 ≡ ok archive)
    × Selects float_add now (keep is_name lines) archive entries

names_of :
    (names checked : List String)
    → check_names names ≡ ok checked
    → (1 ≤ length names) × (length names ≤ 512) × (names ≡ checked)
names_of names checked h =
    let (few, same) =
      raise_if-ok (length names == 0 || ltb 512 (length names)) value_error (ok names) checked h in
    let some_there : 1 ≤ length names = ground arith in
    let within : length names ≤ 512 = ground arith in
    (some_there, within, ok-inj names checked same)

listed_names-Selected :
    (float_add : Value → Value → Result Double) (now : ℕ) (listing : Result (List String))
    (tar : List String → String × Result Archive) (names : List String) (entries : List Entry)
    → listed_names listing ≡ ok names
    → ((tar names).1 >>= read_archive float_add now names) ≡ ok entries
    → Selected float_add now listing tar entries
unfolding listed_names
listed_names-Selected float_add now listing tar names entries h k =
    let (lines, listed, checked) = >>=-ok listing _ names h in
    let (some_there, few, same) = names_of (keep is_name lines) names checked in
    let (archive, packed, read) = >>=-ok (tar names).1 _ entries k in
    (
      lines,
      archive,
      listed,
      some_there,
      few,
      ap (λ ns. (tar ns).1) same ∙ packed,
      subst (λ ns. Selects float_add now ns archive entries) (sym same)
          (read_archive-Selects float_add now names archive entries read),
    )

-- What a copy returns, and the directory that it leaves.
abbrev pub Returned :
    (Value → Value → Result Double)
    → ℕ
    → Option Files
    → Result (List String)
    → (List String → String × Result Archive)
    → Option Files
    → Result (List String × ℕ)
    → Type 0
Returned float_add now before listing tar left (err e) = left ≡ before
Returned float_add now before listing tar left (ok (names, time)) =
    (entries : List Entry) × (before ≡ none)
    × (time ≡ now)
    × (names ≡ map (λ e. e.name) entries)
    × (left ≡ some (map (λ e. (e.name, e.content)) entries))
    × Selected float_add now listing tar entries

module _ (float_add : Value → Value → Result Double) (disk : Disk) (now : ℕ)
    (listing : Result (List String)) (tar : List String → String × Result Archive) where
  copy_files-Returned :
      (names : List String) (time : ℕ) (left : Files)
      → copy_files float_add disk now listing tar [] ≡ (ok (names, time), left)
      → Returned float_add now none listing tar (some left) (ok (names, time))
  unfolding copy_files
  copy_files-Returned names time left h =
      let (asked, files₁, listed, h₁) =
        after-ok (listed_names listing, []) _ (names, time) left h in
      let (opened, files₂, first, h₂) =
        after-ok (write_new disk temporary (tar asked).0 files₁) _ (names, time) left h₁ in
      let (entries, files₃, read, h₃) =
        after-ok ((tar asked).1 >>= read_archive float_add now asked, files₂) _ (names, time) left
          h₂ in
      let (wrote, files₄, all_done, h₄) =
        after-ok (write_all disk entries files₃) _ (names, time) left h₃ in
      let (gone, files₅, cleared, h₅) =
        after-ok (unlink disk.unlink_fails files₄) _ (names, time) left h₄ in
      let (fresh, opened_as) =
        write_new-Adds disk temporary (tar asked).0 files₁ files₂ opened first in
      let start : files₃ ≡ (temporary, (tar asked).0) ∷ [] =
        sym (ap (λ r. r.1) read)
        ∙ opened_as
        ∙ ap (λ fs. fs ++ (temporary, (tar asked).0) ∷ []) (sym (ap (λ r. r.1) listed)) in
      let (there, others) =
        write_all-Adds disk temporary (tar asked).0 entries [] files₄ wrote
          (sym (ap (write_all disk entries) start) ∙ all_done) in
      let result = ok-inj _ (names, time) (ap (λ r. r.0) h₅) in
      (
        entries,
        refl,
        sym (ap (λ r. r.1) result),
        sym (ap (λ r. r.0) result),
        ap some (
            sym (ap (λ r. r.1) h₅)
            ∙ unlink-Removes disk.unlink_fails (tar asked).0 entries files₄ files₅ gone there others
                cleared),
        listed_names-Selected float_add now listing tar asked entries (ap (λ r. r.0) listed)
            (ap (λ r. r.0) read),
      )

  settle-Returned :
      (tried : Result (List String × ℕ) × Files)
      → disk.remove_fails ≡ none
      → copy_files float_add disk now listing tar [] ≡ tried
      → Returned float_add now none listing tar
          (settle disk tried).directory
          (settle disk tried).result
  settle-Returned (err e, files) removed h = rw removed refl
  settle-Returned (ok (names, time), files) removed h = copy_files-Returned names time files h

  in_new-Returned :
      (fails : Option Error)
      → disk.remove_fails ≡ none
      → Returned float_add now none listing tar
          (in_new float_add disk now fails listing tar).directory
          (in_new float_add disk now fails listing tar).result
  in_new-Returned (some e) removed = refl
  in_new-Returned none removed =
      settle-Returned (copy_files float_add disk now listing tar []) removed refl

-- If the removal of a directory does not fail, then: where `copy_windows` raises, whatever fails, the
-- directory is as it was before, so there is no partial copy. Where it returns, the directory is new and
-- holds exactly the files that are returned, without the temporary archive: of an archive that has each
-- listed file once and nothing else, the complete windows, at least two, of one producer and epoch, each
-- starting after the one before it.
pub copy_windows-Returned :
    (float_add : Value → Value → Result Double) (disk : Disk) (now : ℕ) (before : Option Files)
    (listing : Result (List String)) (tar : List String → String × Result Archive)
    → disk.remove_fails ≡ none
    → Returned float_add now before listing tar
        (copy_windows float_add disk now before listing tar).directory
        (copy_windows float_add disk now before listing tar).result
unfolding copy_windows
copy_windows-Returned float_add disk now (some files) listing tar removed = refl
copy_windows-Returned float_add disk now none listing tar removed =
    in_new-Returned float_add disk now listing tar disk.mkdir_fails removed
