-- ===== src/LiveAnthropic/Frames.antt =====
-- examples/gateway-accounting/live_anthropic.py: `stream_frames`. A line that `readline` returns is its
-- length, whether it is blank, and the stripped text after `data:`, if it starts so. `loads` is
-- `json.loads` of the data parts joined by newlines, `none` where it raises.
pub mod Splits
use otelcol_genai_sketches.Base.{
  ℕ, ◌+◌, ◌≤◌, String, Bool, true, false, List, [], ◌∷◌, ◌++◌, ◌||◌, ltb, str_eq, if◌then◌else◌,
  Option, none, some,
}
use otelcol_genai_sketches.Base.Errors.{Result, ok, err, value_error}
use otelcol_genai_sketches.Json.{Value, dict, Fields, end}

pub record Line : Type 0 where
  pub length : ℕ
  pub blank : Bool
  pub data_part : Option String

pub record Frame : Type 0 where
  pub raw : List Line
  pub value : Fields

-- The parts that are joined to the frame's data.
abbrev pub data_parts : List Line → List String
data_parts [] = []
data_parts (line ∷ frame) = elim (line.data_part) [
  | none ↦ data_parts frame
  | some part ↦ part ∷ data_parts frame
]

-- `not data`: only no part, or one empty part, joins to nothing.
abbrev no_data : List String → Bool
no_data [] = true
no_data (part ∷ []) = str_eq part ""
no_data _ = false

abbrev event_of : Option Value → Result Fields
event_of (some (dict fs)) = ok fs
event_of _ = err value_error

-- The generator's frames, and how it ends.
abbrev pub Frames : Type 0
Frames = List Frame × Result (Unit {0})

abbrev pub and_then : Frame → Frames → Frames
and_then frame (frames, ending) = (frame ∷ frames, ending)

-- The end of the response, with the lines of an open frame.
abbrev pub at_end : List Line → Frames
at_end [] = ([], ok tt)
at_end _ = ([], err value_error)

-- The limits on a line and on the whole stream.
abbrev pub exceeds : ℕ → Line → Bool
exceeds total line = ltb 65536 line.length || ltb 2000000 (total + line.length)

module _ (loads : List String → Option Value) where
  -- The value of a closed frame.
  unfoldable pub value_of : List Line → Result Fields
  value_of raw = if no_data (data_parts raw) then ok end else event_of (loads (data_parts raw))

  abbrev pub yields : List Line → Result Fields → Frames → Frames
  yields raw (err e) rest = ([], err e)
  yields raw (ok value) rest = and_then (record { raw = raw; value = value }) rest

  -- The loop, with the open frame and the bytes so far.
  unfoldable pub read_lines : List Line → ℕ → List Line → Frames
  unfolding value_of
  read_lines frame total [] = at_end frame
  read_lines frame total (line ∷ lines) =
      let closed = read_lines [] (total + line.length) lines in
      let opened = read_lines (frame ++ line ∷ []) (total + line.length) lines in
      if exceeds total line
      then ([], err value_error)
      else if line.blank
      then yields (frame ++ line ∷ []) (value_of (frame ++ line ∷ [])) closed
      else opened

  unfoldable pub stream_frames : List Line → Frames
  unfolding read_lines
  stream_frames lines = read_lines [] 0 lines
