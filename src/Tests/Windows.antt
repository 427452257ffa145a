-- ===== src/Tests/Windows.antt =====
-- A copy of two summary windows (deploy/kubernetes/summary-export/copy-windows.py).
use otelcol_genai_sketches.Base.{
  ℕ, ◌+◌, String, true, [], ◌∷◌, List, none, some, ◌≡◌, refl, ◌↔◌, str_eq, if◌then◌else◌,
}
use otelcol_genai_sketches.Base.Errors.{Result, ok, err, value_error, os_error}
use otelcol_genai_sketches.Json.{Value, Double, int, negsuc, str, nat, dict, Fields, fields, put}
use otelcol_genai_sketches.Json.Equality.{value_eq}
use otelcol_genai_sketches.CopyWindows.{Member, Entry, Archive, Disk, copy_windows, window, is_name}
use otelcol_genai_sketches.CopyWindows.Numbers.{whole}
use otelcol_genai_sketches.CopyWindows.Complete.{IsComplete, window_iff}
use otelcol_genai_sketches.CopyWindows.Copied.{Returned, copy_windows-Returned}

abbrev document : ℕ → Fields
document start = fields (
    ("producer_id", str "collector-0")
    ∷ ("epoch", str "0123456789abcdef0123456789abcdef")
    ∷ ("window_start_unix_nano", nat start)
    ∷ ("window_duration_unix_nano", nat 10)
    ∷ ("emitted_at_unix_nano", nat (start + 11))
    ∷ ("observed_start_unix_nano", nat start)
    ∷ ("observed_end_unix_nano", nat (start + 10))
    ∷ [])

abbrev first_name : String
first_name = "00000000000000000100-0123456789abcdef0123456789abcdef.json"

abbrev next_name : String
next_name = "00000000000000000110-0123456789abcdef0123456789abcdef.json"

abbrev member : String → ℕ → Member
member name start = record {
  name = name;
  is_file = true;
  size = 300;
  content = "{}";
  document = some (dict (document start));
}

-- The later window comes first.
abbrev tar : List String → String × Result Archive
tar names = (
  "archive",
  ok (record {
    file_size = 2048;
    members = member next_name 110 ∷ member first_name 100 ∷ [];
    broken = none;
  }),
)

abbrev listing : Result (List String)
listing = ok ("tmp" ∷ first_name ∷ next_name ∷ [])

-- No time is a float here.
abbrev no_floats : Value → Value → Result Double
no_floats v w = err value_error

abbrev disk : Disk
disk = record {
  mkdir_fails = none;
  write_fails = λ name. none;
  unlink_fails = none;
  remove_fails = none;
}

copy_windows-Returned_example :
    Returned no_floats 200 none listing tar
      (copy_windows no_floats disk 200 none listing tar).directory
      (copy_windows no_floats disk 200 none listing tar).result
copy_windows-Returned_example = copy_windows-Returned no_floats disk 200 none listing tar refl

order_run :
    (copy_windows no_floats disk 200 none listing tar).result
    ≡ ok (first_name ∷ next_name ∷ [], 200)
unfolding copy_windows is_name value_eq
order_run = refl

left_run :
    (copy_windows no_floats disk 200 none listing tar).directory
    ≡ some ((first_name, "{}") ∷ (next_name, "{}") ∷ [])
unfolding copy_windows is_name value_eq
left_run = refl

-- Before the second window was emitted, one complete window is too few, and nothing stays.
early_run : (copy_windows no_floats disk 115 none listing tar).directory ≡ none
unfolding copy_windows is_name value_eq
early_run = refl

-- The second file cannot be written.
abbrev full : Disk
full = record disk {
  write_fails = λ name. if str_eq name next_name then some (os_error, "{") else none;
}

full_run : (copy_windows no_floats full 200 none listing tar).directory ≡ none
unfolding copy_windows is_name value_eq
full_run = refl

abbrev kept : Entry
kept = record { name = first_name; content = "{}"; start = whole 100; document = document 100 }

window_iff_example :
    (window no_floats 200 (member first_name 100) (some (dict (document 100))) ≡ ok (some kept))
    ↔ IsComplete no_floats 200 (member first_name 100) kept
window_iff_example = window_iff no_floats 200 (member first_name 100) kept

kept_run :
    window no_floats 200 (member first_name 100) (some (dict (document 100))) ≡ ok (some kept)
unfolding window value_eq
kept_run = refl

-- A window with a negative duration is skipped.
abbrev backwards : Fields
backwards = put "window_duration_unix_nano" (int (negsuc 9)) (document 100)

backwards_run : window no_floats 200 (member first_name 100) (some (dict backwards)) ≡ ok none
unfolding window value_eq
backwards_run = refl
