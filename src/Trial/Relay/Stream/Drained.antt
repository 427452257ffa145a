-- ===== src/Trial/Relay/Stream/Drained.antt =====
-- examples/integrations/litellm/provider-trial/relay.py: the completions that a streamed answer leaves
-- in the ledger.
use otelcol_genai_sketches.Base.{
  ℕ, ◌+◌, String, Bool, true, false, List, [], ◌∷◌, ◌++◌, ◌||◌, ◌&&◌, not, if◌then◌else◌, Option,
  none, some, leb, ltb, str_eq, ◌≡◌, refl, sym, ap, ◌∙◌, Bool-cases, inl, inr,
}
use otelcol_genai_sketches.Json.{null, bool, int, real, str, arr, dict, get, truthy}
use otelcol_genai_sketches.Ledger.{History, provider_complete}
use otelcol_genai_sketches.Provider.Request.{take_write}
use otelcol_genai_sketches.Trial.{usage_only}
use otelcol_genai_sketches.Trial.Relay.Stream.{
  Relay, Line, plain, data_line, line_length, Drain, Outcome, drained, stopped, then_do, round,
  run_lines, drain, drain_lines, write_head, opening, inject_cut, write_line, read_event, written,
}

-- What one line adds to the ledger, of itself; `none` where the answer is read no further.
abbrev rows_of : ℕ → Line → Option History
rows_of attempt (plain n) = some []
rows_of attempt (data_line n (some (dict decoded))) =
    if truthy (get "usage" decoded)
    then some
        (provider_complete attempt (usage_only (get "usage" decoded)) (get "model" decoded) ∷ [])
    else some []
rows_of attempt (data_line n _) = none

abbrev reads : ℕ → ℕ → Line → Option History
reads attempt total line =
    if ltb 1000000 (line_length line) || ltb 4000000 (total + line_length line)
    then none
    else rows_of attempt line

abbrev extend : Option History → History → History
extend none rest = []
extend (some rows) rest = rows ++ rest

-- The completions in the lines up to the first that is too long or cannot be read, whatever the client
-- does.
abbrev pub completions : ℕ → ℕ → List Line → History
completions attempt total [] = []
completions attempt total (line ∷ lines) =
    extend (reads attempt total line) (completions attempt (total + line_length line) lines)

abbrev pub ended : Outcome → Drain
ended (drained st) = st
ended (stopped e st) = st

-- The loop goes on, and the ledger and the bytes are as they were.
abbrev Kept : Drain → Outcome → Type 0
Kept st (drained t) = (t.relay.history ≡ st.relay.history) × (t.received_bytes ≡ st.received_bytes)
Kept st (stopped e t) = ⊥

if-Kept :
    (st : Drain) (b : Bool) (o p : Outcome) → Kept st o → Kept st p → Kept st (if b then o else p)
if-Kept st true o p kept other = kept
if-Kept st false o p kept other = other

then_do-Kept :
    (st : Drain) (o : Outcome) (f : Drain → Outcome)
    → Kept st o
    → ((t : Drain) → Kept t (f t))
    → Kept st (then_do o f)
then_do-Kept st (drained t) f (history, bytes) after = later (f t) (after t)
  where
    later : (o : Outcome) → Kept t o → Kept st o
    later (drained u) (h, b) = (h ∙ history, b ∙ bytes)
    later (stopped e u) kept = kept
then_do-Kept st (stopped e t) f kept after = kept

inject_cut-Kept :
    (attempt : ℕ) (case : String) (st : Drain) → Kept st (inject_cut attempt case true st)
unfolding inject_cut
inject_cut-Kept attempt case st =
    elim (Bool-cases (str_eq case "stream_cut" && leb 3 st.chunks && not st.cut)) [
      | inl cut ↦ rw cut (refl, refl)
      | inr whole ↦ rw whole (refl, refl)
    ]

written-Kept :
    (attempt : ℕ) (case : String) (st : Drain) (line : Line) (left : Option (Option ℕ))
    → Kept st (written attempt case st line left)
written-Kept attempt case st line none = (refl, refl)
written-Kept attempt case st line (some left) = (refl, refl)

write_line-Kept :
    (attempt : ℕ) (case : String) (st : Drain) (line : Line)
    → Kept st (write_line attempt case st line)
unfolding write_line
write_line-Kept attempt case st line =
    if-Kept st st.cut (drained st) (written attempt case st line (take_write st.accepts))
      (refl, refl) (written-Kept attempt case st line (take_write st.accepts))

-- A round adds the rows of its line, or stops with none.
abbrev Leaves : ℕ → Drain → Option History → ℕ → Outcome → Type 0
Leaves attempt st (some rows) size (drained t) =
    (t.relay.history ≡ st.relay.history ++ rows) × (t.received_bytes ≡ st.received_bytes + size)
Leaves attempt st none size (stopped e t) = t.relay.history ≡ st.relay.history
Leaves attempt st _ size _ = ⊥

append_nil : (h : History) → h ++ [] ≡ h
append_nil [] = refl
append_nil (row ∷ h) = ap (λ g. row ∷ g) (append_nil h)

append_assoc : (f g h : History) → (f ++ g) ++ h ≡ f ++ (g ++ h)
append_assoc [] g h = refl
append_assoc (row ∷ f) g h = ap (λ k. row ∷ k) (append_assoc f g h)

-- The rest of a round, after the event has been read.
abbrev rest_of : ℕ → String → Line → Drain → Outcome
rest_of attempt case line st =
    then_do (inject_cut attempt case true st) λ t. write_line attempt case t line

rest_of-Leaves :
    (attempt : ℕ) (case : String) (line : Line) (st t : Drain) (rows : History) (size : ℕ)
    → t.relay.history ≡ st.relay.history ++ rows
    → t.received_bytes ≡ st.received_bytes + size
    → Leaves attempt st (some rows) size (rest_of attempt case line t)
rest_of-Leaves attempt case line st t rows size history bytes =
    moved (rest_of attempt case line t) (
      then_do-Kept t (inject_cut attempt case true t) (λ u. write_line attempt case u line)
        (inject_cut-Kept attempt case t) (λ u. write_line-Kept attempt case u line))
  where
    moved : (o : Outcome) → Kept t o → Leaves attempt st (some rows) size o
    moved (drained u) (h, b) = (h ∙ history, b ∙ bytes)
    moved (stopped e u) kept = kept

read-Leaves :
    (attempt : ℕ) (case : String) (st : Drain) (line : Line) (size : ℕ)
    → Leaves attempt st (rows_of attempt line) size (
        then_do
          (read_event attempt (record st { received_bytes = st.received_bytes + size }) line)
          (rest_of attempt case line))
unfolding read_event
read-Leaves attempt case st (plain n) size =
    rest_of-Leaves attempt case (plain n) st _ [] size (sym (append_nil st.relay.history)) refl
read-Leaves attempt case st (data_line n none) size = refl
read-Leaves attempt case st (data_line n (some null)) size = refl
read-Leaves attempt case st (data_line n (some (bool b))) size = refl
read-Leaves attempt case st (data_line n (some (int i))) size = refl
read-Leaves attempt case st (data_line n (some (real r))) size = refl
read-Leaves attempt case st (data_line n (some (str s))) size = refl
read-Leaves attempt case st (data_line n (some (arr vs))) size = refl
read-Leaves attempt case st (data_line n (some (dict decoded))) size =
    elim (Bool-cases (truthy (get "usage" decoded))) [
      | inl reported ↦
          rw reported
            (rest_of-Leaves attempt case (data_line n (some (dict decoded))) st _ _ size refl refl)
      | inr silent ↦ rw silent (
          rest_of-Leaves attempt case (data_line n (some (dict decoded))) st _ [] size
            (sym (append_nil st.relay.history)) refl)
    ]

round-Leaves :
    (attempt : ℕ) (case : String) (st : Drain) (line : Line)
    → Leaves attempt st
        (reads attempt st.received_bytes line)
        (line_length line)
        (round attempt case true st line)
unfolding round
round-Leaves attempt case st line =
    elim (Bool-cases
      (ltb 1000000 (line_length line) || ltb 4000000 (st.received_bytes + line_length line))) [
        | inl over ↦ rw over refl
        | inr within ↦ rw within (read-Leaves attempt case st line (line_length line))
      ]

-- A round and what follows it.
step-extend :
    (attempt size : ℕ) (st : Drain) (rows : Option History) (o : Outcome) (f : Drain → Outcome)
    (rest : History)
    → Leaves attempt st rows size o
    → ((t : Drain)
        → t.received_bytes ≡ st.received_bytes + size
        → (ended (f t)).relay.history ≡ t.relay.history ++ rest)
    → (ended (then_do o f)).relay.history ≡ st.relay.history ++ extend rows rest
step-extend attempt size st none (stopped e t) f rest leaves later =
    leaves ∙ sym (append_nil st.relay.history)
step-extend attempt size st none (drained t) f rest leaves later = absurd leaves
step-extend attempt size st (some rows) (stopped e t) f rest leaves later = absurd leaves
step-extend attempt size st (some rows) (drained t) f rest (history, bytes) later =
    later t bytes ∙ ap (λ h. h ++ rest) history ∙ append_assoc st.relay.history rows rest

-- The ledger after the loop, from any point of it.
run_lines-completions :
    (attempt : ℕ) (case : String) (lines : List Line) (st : Drain)
    → (ended (run_lines attempt case true lines st)).relay.history
      ≡ st.relay.history ++ completions attempt st.received_bytes lines
unfolding run_lines
run_lines-completions attempt case [] st = sym (append_nil st.relay.history)
run_lines-completions attempt case (line ∷ lines) st =
    step-extend attempt (line_length line) st (reads attempt st.received_bytes line)
      (round attempt case true st line) (run_lines attempt case true lines)
      (completions attempt (st.received_bytes + line_length line) lines)
      (round-Leaves attempt case st line)
      (λ t bytes.
        run_lines-completions attempt case lines t
        ∙ ap (λ n. t.relay.history ++ completions attempt n lines) bytes)

finish_history :
    (o : Outcome) (f : Drain → Drain)
    → ((st : Drain) → (f st).relay.history ≡ st.relay.history)
    → (ended (then_do o (λ st. drained (f st)))).relay.history ≡ (ended o).relay.history
finish_history (drained st) f same = same st
finish_history (stopped e st) f same = refl

-- Once the head of the response has been written, and if the injected disconnect succeeds, then whatever
-- the case and however soon the client goes away, the ledger gains exactly the completions of the lines
-- that the provider sent, up to the first line that is too long or cannot be read: it gains them whether
-- or not a line reached the client.
pub drain-completions :
    (r : Relay) (attempt : ℕ) (case : String) (lines : List Line) (accepts left : Option ℕ)
    → take_write accepts ≡ some left
    → (ended (drain r attempt case lines accepts true)).relay.history
      ≡ r.history ++ completions attempt 0 lines
unfolding drain
drain-completions r attempt case lines accepts left taken =
    ap (λ next. (ended (drain_lines attempt case lines true (write_head r next))).relay.history)
      taken
    ∙ finish_history (run_lines attempt case true lines (opening r left)) _ (λ st. refl)
    ∙ run_lines-completions attempt case lines (opening r left)
