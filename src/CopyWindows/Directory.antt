-- ===== src/CopyWindows/Directory.antt =====
-- deploy/kubernetes/summary-export/copy-windows.py: what the steps on the output directory leave in it.
use otelcol_genai_sketches.Base.{
  ℕ, String, Bool, true, false, List, [], ◌∷◌, ◌++◌, ◌||◌, Option, none, some, map, ◌≡◌, refl, sym,
  ap, ◌∙◌, arith, str_eq, eq_iff, if◌then◌else◌,
}
use mathlib.Core.List.{append-nil, append_assoc}
use otelcol_genai_sketches.Base.Errors.{Result, ok, err, Error, os_error}
use otelcol_genai_sketches.CopyWindows.{
  Entry, Files, Disk, after, has_file, without, temporary, write_to, write_new, write_all, unlink,
}

-- What has happened before a step that returned.
pub after-ok :
    {A B : Type 0} (before : Result A × Files) (next : A → Files → Result B × Files) (result : B)
    (last : Files)
    → after before next ≡ (ok result, last)
    → (value : A) × (files : Files) × (before ≡ (ok value, files))
      × (next value files ≡ (ok result, last))
after-ok (err e, files) next result last h = (let bad = ap (λ r. r.0) h in cc)
after-ok (ok value, files) next result last h = (value, files, refl, h)

pub write_new-Adds :
    (disk : Disk) (n content : String) (files next : Files) (done : ℕ)
    → write_new disk n content files ≡ (ok done, next)
    → (has_file n files ≡ false) × (next ≡ files ++ (n, content) ∷ [])
unfolding write_new
write_new-Adds disk n content files next done h = written (has_file n files) (disk.write_fails n) h
  where
    written :
        (there : Bool) (fails : Option (Error × String))
        → (if there then (err os_error, files) else write_to n content files fails)
          ≡ (ok done, next)
        → (there ≡ false) × (next ≡ files ++ (n, content) ∷ [])
    written true fails h = (let bad = ap (λ r. r.0) h in cc)
    written false none h = (refl, sym (ap (λ r. r.1) h))
    written false (some (e, part)) h = (let bad = ap (λ r. r.0) h in cc)

-- None of the windows has the name.
abbrev pub OtherNames : String → List Entry → Type 0
OtherNames n [] = Unit {0}
OtherNames n (e ∷ es) = (str_eq n e.name ≡ false) × OtherNames n es

abbrev pub files_of : List Entry → Files
files_of entries = map (λ e. (e.name, e.content)) entries

other_name : (m n : String) (rest : Bool) → (str_eq m n || rest) ≡ false → str_eq n m ≡ false
other_name m n rest h = grind (arith, eq_iff m n, eq_iff n m)

pub write_all-Adds :
    (disk : Disk) (n content : String) (entries : List Entry) (files last : Files) (done : ℕ)
    → write_all disk entries ((n, content) ∷ files) ≡ (ok done, last)
    → (last ≡ (n, content) ∷ files ++ files_of entries) × OtherNames n entries
unfolding write_all
write_all-Adds disk n content [] files last done h =
    (sym (ap (λ r. r.1) h) ∙ ap (λ fs. (n, content) ∷ fs) (sym (append-nil files)), tt)
write_all-Adds disk n content (e ∷ es) files last done h =
    let (wrote, next, first, rest) =
      after-ok (write_new disk e.name e.content ((n, content) ∷ files))
        (λ wrote fs. write_all disk es fs) done last h in
    let (fresh, added) =
      write_new-Adds disk e.name e.content ((n, content) ∷ files) next wrote first in
    let (all_there, others) =
      write_all-Adds disk n content es (files ++ (e.name, e.content) ∷ []) last done
        (sym (ap (write_all disk es) added) ∙ rest) in
    (
      all_there
          ∙ ap (λ fs. (n, content) ∷ fs)
              (append_assoc files ((e.name, e.content) ∷ []) (files_of es)),
      (other_name e.name n (has_file e.name files) fresh, others),
    )

without-files_of :
    (n : String) (entries : List Entry)
    → OtherNames n entries
    → without n (files_of entries) ≡ files_of entries
without-files_of n [] others = refl
without-files_of n (e ∷ es) (other, others) =
    rw other (ap (λ fs. (e.name, e.content) ∷ fs) (without-files_of n es others))

pub unlink-Removes :
    (fails : Option Error) (content : String) (entries : List Entry) (files last : Files) (done : ℕ)
    → files ≡ (temporary, content) ∷ files_of entries
    → OtherNames temporary entries
    → unlink fails files ≡ (ok done, last)
    → last ≡ files_of entries
unlink-Removes (some e) content entries files last done listed others h =
    (let bad = ap (λ r. r.0) h in cc)
unlink-Removes none content entries files last done listed others h =
    sym (ap (λ r. r.1) h)
    ∙ ap (without temporary) listed
    ∙ without-files_of temporary entries others
