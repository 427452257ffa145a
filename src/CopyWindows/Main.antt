-- ===== src/CopyWindows/Main.antt =====
-- deploy/kubernetes/summary-export/copy-windows.py: `main`, after the arguments. `path` is the path of a
-- file in the output directory, `quote` is `shlex.quote` and `iso` writes a time.
use otelcol_genai_sketches.Base.{ℕ, String, List, [], ◌∷◌, Option, none, some, length}
use otelcol_genai_sketches.Base.Errors.{
  Result, ok, err, Error, value_error, type_error, attribute_error, key_error, os_error,
}

-- How the command ends: with a status and a message; with the number of windows and the assignments that
-- it prints; or with an exception.
pub data Ending : Type 0 where
  exits : ℕ → Ending
  prints : ℕ → List (String × String) → Ending
  raises : Error → Ending
  lacks_files : Ending

-- `files[-2]` and `files[-1]`, where there are two.
unfoldable pub last_two : List String → Option (String × String)
last_two [] = none
last_two (a ∷ []) = none
last_two (a ∷ b ∷ []) = some (a, b)
last_two (a ∷ b ∷ c ∷ names) = last_two (b ∷ c ∷ names)

module _ (path quote : String → String) (iso : ℕ → String) where
  abbrev pub assignments : ℕ → ℕ → Option (String × String) → Ending
  assignments copied time none = lacks_files
  assignments copied time (some (before, after)) = prints copied (
      ("BEFORE", quote (path before))
      ∷ ("AFTER", quote (path after))
      ∷ ("AS_OF", quote (iso time))
      ∷ [])

  unfoldable pub main : Result (List String × ℕ) → Ending
  unfolding last_two
  main (ok (names, time)) = assignments (length names) time (last_two names)
  main (err attribute_error) = raises attribute_error
  main (err value_error) = exits 1
  main (err type_error) = exits 1
  main (err key_error) = exits 1
  main (err os_error) = exits 1
