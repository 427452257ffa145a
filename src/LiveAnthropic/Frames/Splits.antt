-- ===== src/LiveAnthropic/Frames/Splits.antt =====
-- examples/gateway-accounting/live_anthropic.py: the frames of `stream_frames` against the lines of the
-- response.
use otelcol_genai_sketches.Base.{
  ℕ, ◌+◌, ◌≤◌, String, Bool, true, false, not, ◌&&◌, List, [], ◌∷◌, ◌++◌, if◌then◌else◌, Option,
  ◌≡◌, refl, sym, ap, ◌∙◌, subst, arith,
}
use otelcol_genai_sketches.Base.Errors.{Error, Result, ok, err, value_error}
use otelcol_genai_sketches.Json.{Value, Fields}
use otelcol_genai_sketches.LiveAnthropic.Frames.{
  Line, Frame, Frames, exceeds, value_of, yields, read_lines, stream_frames,
}

-- The lines of all frames in order.
abbrev raws : List Frame → List Line
raws [] = []
raws (frame ∷ frames) = frame.raw ++ raws frames

abbrev bytes : List Line → ℕ
bytes [] = 0
bytes (line ∷ lines) = line.length + bytes lines

-- A blank line ends the frame, and no other line of it is blank.
abbrev pub is_frame : List Line → Bool
is_frame [] = false
is_frame (line ∷ []) = line.blank
is_frame (line ∷ next ∷ lines) = not line.blank && is_frame (next ∷ lines)

abbrev all_frames : List Frame → Bool
all_frames [] = true
all_frames (frame ∷ frames) = is_frame frame.raw && all_frames frames

abbrev all_open : List Line → Bool
all_open [] = true
all_open (line ∷ lines) = not line.blank && all_open lines

-- The frames with a rest make up the lines; nothing is left after a normal end; each frame ends at its
-- first blank line; and the frames stay within the byte limit.
abbrev pub Splits : ℕ → List Line → Frames → Type 0
Splits total lines (frames, ending) =
    (rest : List Line) × (lines ≡ raws frames ++ rest)
    × (ending ≡ ok tt → rest ≡ [])
    × (all_frames frames ≡ true)
    × (total + bytes (raws frames) ≤ 2000000)

append_assoc : (xs ys zs : List Line) → (xs ++ ys) ++ zs ≡ xs ++ (ys ++ zs)
append_assoc [] ys zs = refl
append_assoc (x ∷ xs) ys zs = ap (λ ws. x ∷ ws) (append_assoc xs ys zs)

bytes-append : (xs ys : List Line) → bytes (xs ++ ys) ≡ bytes xs + bytes ys
bytes-append [] ys = omega arith
bytes-append (x ∷ xs) ys = omega (arith, bytes-append xs ys)

is_frame-append :
    (frame : List Line) (line : Line)
    → all_open frame ≡ true
    → line.blank ≡ true
    → is_frame (frame ++ line ∷ []) ≡ true
is_frame-append [] line o b = b
is_frame-append (x ∷ []) line o b = ground arith
is_frame-append (x ∷ y ∷ frame) line o b = ground (arith, is_frame-append (y ∷ frame) line)

all_open-append :
    (frame : List Line) (line : Line)
    → all_open frame ≡ true
    → line.blank ≡ false
    → all_open (frame ++ line ∷ []) ≡ true
all_open-append [] line o b = ground arith
all_open-append (x ∷ frame) line o b = ground (arith, all_open-append frame line)

raised_not_ok : (e : Error) → err e ≡ ok (tt {0}) → ⊥
raised_not_ok e h = cc

-- An exception leaves all lines unread.
raised-Splits :
    (before : ℕ) (lines : List Line) (e : Error)
    → before ≤ 2000000
    → Splits before lines ([], err e)
raised-Splits before lines e room =
    (lines, refl, λ h. absurd (raised_not_ok e h), refl, omega arith)

yields-Splits :
    (loads : List String → Option Value) (before : ℕ) (raw lines : List Line)
    (value : Result Fields) (rest : Frames)
    → is_frame raw ≡ true
    → before + bytes raw ≤ 2000000
    → Splits (before + bytes raw) lines rest
    → Splits before (raw ++ lines) (yields loads raw value rest)
yields-Splits loads before raw lines (err e) rest f room h =
    raised-Splits before (raw ++ lines) e (omega arith)
yields-Splits loads before raw lines (ok value) (frames, ending) f room
      (left, same, none_left, fs, total) =
    (
      left,
      ap (λ ls. raw ++ ls) same ∙ sym (append_assoc raw (raws frames) left),
      none_left,
      rw (f, fs) refl,
      omega (arith, bytes-append raw (raws frames), total),
    )

-- One round of the loop: the line exceeds a limit, closes the frame, or stays in it.
round-Splits :
    (over blank : Bool) (before : ℕ) (lines : List Line) (e : Error) (closed opened : Frames)
    → before ≤ 2000000
    → (over ≡ false → blank ≡ true → Splits before lines closed)
    → (over ≡ false → blank ≡ false → Splits before lines opened)
    → Splits before lines (if over then ([], err e) else if blank then closed else opened)
round-Splits true blank before lines e closed opened room c o = raised-Splits before lines e room
round-Splits false true before lines e closed opened room c o = c refl refl
round-Splits false false before lines e closed opened room c o = o refl refl

within_limit :
    (total : ℕ) (line : Line) → exceeds total line ≡ false → total + line.length ≤ 2000000
within_limit total line h = ground arith

-- The frame with one more line.
bytes-snoc :
    (before : ℕ) (frame : List Line) (line : Line)
    → before + bytes (frame ++ line ∷ []) ≡ before + bytes frame + line.length
bytes-snoc before frame line = omega (arith, bytes-append frame (line ∷ []))

regroup :
    (before : ℕ) (frame : List Line) (line : Line) (lines : List Line) (frames : Frames)
    → Splits before ((frame ++ line ∷ []) ++ lines) frames
    → Splits before (frame ++ line ∷ lines) frames
regroup before frame line lines frames h =
    subst (λ ls. Splits before ls frames) (append_assoc frame (line ∷ []) lines) h

-- What the loop yields splits the open frame and the lines that are left; `before` are the bytes of
-- the earlier frames.
read_lines-Splits :
    (loads : List String → Option Value) (lines frame : List Line) (before : ℕ)
    → before + bytes frame ≤ 2000000
    → all_open frame ≡ true
    → Splits before (frame ++ lines) (read_lines loads frame (before + bytes frame) lines)
unfolding read_lines
read_lines-Splits loads [] [] before room o = ([], refl, λ h. refl, refl, room)
read_lines-Splits loads [] (x ∷ frame) before room o =
    raised-Splits before (x ∷ frame ++ []) value_error (omega arith)
read_lines-Splits loads (line ∷ lines) frame before room o =
    round-Splits (exceeds (before + bytes frame) line) line.blank before (frame ++ line ∷ lines)
      value_error
      (yields loads (frame ++ line ∷ []) (value_of loads (frame ++ line ∷ []))
        (read_lines loads [] (before + bytes frame + line.length) lines))
      (read_lines loads (frame ++ line ∷ []) (before + bytes frame + line.length) lines)
      (omega arith)
      (λ within blank.
        regroup before frame line lines
          (yields loads (frame ++ line ∷ []) (value_of loads (frame ++ line ∷ []))
            (read_lines loads [] (before + bytes frame + line.length) lines))
          (yields-Splits loads before (frame ++ line ∷ []) lines
            (value_of loads (frame ++ line ∷ []))
            (read_lines loads [] (before + bytes frame + line.length) lines)
            (is_frame-append frame line o blank) (limit within)
            (subst
              (λ n.
                Splits (before + bytes (frame ++ line ∷ [])) lines (read_lines loads [] n lines))
              (closed_total frame)
              (read_lines-Splits loads lines [] (before + bytes (frame ++ line ∷ []))
                (omega (arith, limit within)) refl))))
      (λ within blank.
        regroup before frame line lines
          (read_lines loads (frame ++ line ∷ []) (before + bytes frame + line.length) lines)
          (subst
            (λ n.
              Splits before ((frame ++ line ∷ []) ++ lines)
                (read_lines loads (frame ++ line ∷ []) n lines))
            (bytes-snoc before frame line)
            (read_lines-Splits loads lines (frame ++ line ∷ []) before (limit within)
              (all_open-append frame line o blank))))
  where
    closed_total :
        (f : List Line)
        → before + bytes (f ++ line ∷ []) + bytes [] ≡ before + bytes f + line.length
    closed_total f = omega (arith, bytes-snoc before f line)

    limit :
        exceeds (before + bytes frame) line ≡ false → before + bytes (frame ++ line ∷ []) ≤ 2000000
    limit within =
        omega (arith, bytes-snoc before frame line, within_limit (before + bytes frame) line within)

-- Of any lines, the frames of the generator are a beginning, cut just after each blank line, and all of
-- them where it ends without an exception; they hold at most 2,000,000 bytes.
pub stream_frames-Splits :
    (loads : List String → Option Value) (lines : List Line)
    → Splits 0 lines (stream_frames loads lines)
unfolding stream_frames
stream_frames-Splits loads lines = read_lines-Splits loads lines [] 0 (omega arith) refl
