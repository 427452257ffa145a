-- ===== src/Tests/Frames.antt =====
-- The frames of a provider stream (live_anthropic.py).
use otelcol_genai_sketches.Base.{
  String, true, false, List, [], ◌∷◌, Option, none, some, str_eq, if◌then◌else◌, ◌≡◌, refl,
}
use otelcol_genai_sketches.Base.Errors.{err, value_error}
use otelcol_genai_sketches.Json.{Value, str, object, fields, end}
use otelcol_genai_sketches.LiveAnthropic.Frames.{Line, stream_frames}
use otelcol_genai_sketches.LiveAnthropic.Frames.Splits.{Splits, stream_frames-Splits}

abbrev event_line : Line
event_line = record { length = 20; blank = false; data_part = none }

abbrev data_line : Line
data_line = record { length = 30; blank = false; data_part = some "ping" }

abbrev blank_line : Line
blank_line = record { length = 1; blank = true; data_part = none }

abbrev read_json : List String → Option Value
read_json (s ∷ []) = if str_eq s "ping" then some (object (("type", str "ping") ∷ [])) else none
read_json _ = none

-- A frame with data, one without, and a frame that is not closed.
abbrev lines : List Line
lines = event_line ∷ data_line ∷ blank_line ∷ blank_line ∷ event_line ∷ []

stream_frames-Splits_example : Splits 0 lines (stream_frames read_json lines)
stream_frames-Splits_example = stream_frames-Splits read_json lines

frames_run : stream_frames read_json lines ≡ (
  record {
    raw = event_line ∷ data_line ∷ blank_line ∷ [];
    value = fields (("type", str "ping") ∷ []);
  }
      ∷ record { raw = blank_line ∷ []; value = end }
      ∷ [],
  err value_error,
)
unfolding stream_frames
frames_run = refl
