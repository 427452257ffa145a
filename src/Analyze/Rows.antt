-- ===== src/Analyze/Rows.antt =====
-- examples/gateway-accounting/analyze.py: `rows` and `in_window`. A file is its size
-- and its lines, each with what `json.loads` makes of it.
use otelcol_genai_sketches.Base.{
  ℕ, Bool, false, List, [], ◌∷◌, ◌&&◌, not, ltb, leb, if◌then◌else◌, Option, none, some,
}
use otelcol_genai_sketches.Base.Errors.{Result, ok, err, value_error, ◌>>=◌}
use otelcol_genai_sketches.Json.{Value, dict, Fields, get}
use otelcol_genai_sketches.Analyze.Counts.{count}

pub data Line : Type 0 where
  blank : Line
  json : Value → Line
  -- Text that is no JSON; the flag is `line.lstrip().startswith("{")`.
  malformed : Bool → Line

pub record File : Type 0 where
  pub size : ℕ
  pub lines : List Line

abbrev add_row : Value → List Fields → List Fields
add_row (dict fs) rows = fs ∷ rows
add_row _ rows = rows

-- The loop over the lines.
unfoldable pub parse_lines : Bool → List Line → Result (List Fields)
parse_lines mixed_logs [] = ok []
parse_lines mixed_logs (blank ∷ lines) = parse_lines mixed_logs lines
parse_lines mixed_logs (json v ∷ lines) =
    parse_lines mixed_logs lines >>= λ rest. ok (add_row v rest)
parse_lines mixed_logs (malformed brace ∷ lines) =
    let rest = parse_lines mixed_logs lines in
    if mixed_logs && not brace then rest else err value_error

-- A file that does not exist has no rows.
unfoldable pub rows : Bool → Option File → Result (List Fields)
unfolding parse_lines
rows mixed_logs none = ok []
rows mixed_logs (some file) =
    if ltb 20000000 file.size then err value_error else parse_lines mixed_logs file.lines

abbrev pub is_within : ℕ → ℕ → Option ℕ → Bool
is_within start end none = false
is_within start end (some stamp) = leb start stamp && leb stamp end

unfoldable pub in_window : Fields → ℕ → ℕ → Bool
in_window row start end = is_within start end (count (get "time_ns" row))
