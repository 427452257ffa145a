-- ===== src/LiveOpenai/Stream.antt =====
-- examples/gateway-accounting/live.py: the loop of `LiveHandler.forward` over the lines of a streamed
-- answer. The client takes a bounded number of writes before it resets the connection; the head of the
-- response is taken.
use otelcol_genai_sketches.Base.{
  ℕ, ◌+◌, String, Bool, true, false, List, [], ◌∷◌, ◌++◌, ◌||◌, ◌&&◌, not, if◌then◌else◌, Option,
  none, some, leb, ltb, str_eq,
}
use otelcol_genai_sketches.Base.Errors.{Error, value_error, attribute_error}
use otelcol_genai_sketches.Json.{Value, bool, str, nat, dict, get, truthy}
use otelcol_genai_sketches.LiveAnthropic.{LiveServer, CutMode, drain, cancel, append_record}
use otelcol_genai_sketches.LiveOpenai.{observed_usage}
use otelcol_genai_sketches.Provider.Request.{take_write}

-- A line of the stream with its length: one that carries no data, the terminal one, or one whose data
-- `json.loads` turns into a value.
pub data Line : Type 0 where
  plain terminal : ℕ → Line
  data_line : ℕ → Option Value → Line

abbrev pub line_length : Line → ℕ
line_length (plain n) = n
line_length (terminal n) = n
line_length (data_line n v) = n

abbrev pub is_terminal : Line → Bool
is_terminal (terminal n) = true
is_terminal _ = false

-- The local variables of the loop, with what has been written to the client.
pub record Stream : Type 0 where
  pub server : LiveServer
  pub cut : Bool
  pub count : ℕ
  pub total : ℕ
  pub terminal_received : Bool
  pub terminal_sent : Bool
  pub accepts : Option ℕ
  pub sent : List Line

-- What a statement leads to: `continue`, `return` and an exception end the round, and the last two the
-- loop.
pub data Outcome : Type 0 where
  going continued returned : Stream → Outcome
  raised : Error → Stream → Outcome

abbrev pub then_do : Outcome → (Stream → Outcome) → Outcome
then_do (going st) f = f st
then_do (continued st) f = continued st
then_do (returned st) f = returned st
then_do (raised e st) f = raised e st

abbrev pub log_event : Stream → String → String → ℕ → List (String × Value) → Stream
log_event st event case case_attempt more = record st {
  server =
      append_record st.server
        (("event", str event) ∷ ("case", str case) ∷ ("attempt", nat case_attempt) ∷ more);
}

-- The limits on a line and on the stream.
unfoldable pub count_bytes : Stream → Line → Outcome
count_bytes st line =
    let counted = record st { total = st.total + line_length line } in
    if ltb 65536 (line_length line) || ltb 2000000 (st.total + line_length line)
    then raised value_error counted
    else going (record counted { terminal_received = st.terminal_received || is_terminal line })

unfoldable pub read_event : ℕ → String → ℕ → Stream → Line → Outcome
unfolding observed_usage
read_event attempt case case_attempt st (plain n) = going st
read_event attempt case case_attempt st (terminal n) = going st
read_event attempt case case_attempt st (data_line n none) = raised value_error st
read_event attempt case case_attempt st (data_line n (some (dict value))) =
    let observed = record st {
      count = st.count + 1;
      server = observed_usage st.server attempt case case_attempt value;
    } in
    if str_eq case "stream_missing" && truthy (get "usage" value)
    then continued observed
    else going observed
read_event attempt case case_attempt st (data_line n (some value)) =
    raised attribute_error (record st { count = st.count + 1 })

abbrev pub mode_name : CutMode → String
mode_name drain = "drain"
mode_name cancel = "cancel"

abbrev pub closed_upstream : Stream → String → ℕ → String → Stream
closed_upstream st case case_attempt reason =
    log_event st "upstream_closed_by_relay" case case_attempt
      (("provider_usage", str "unknown") ∷ ("reason", str reason) ∷ [])

abbrev pub after_cut : CutMode → Stream → String → ℕ → Outcome
after_cut drain st case case_attempt = going st
after_cut cancel st case case_attempt =
    returned (closed_upstream st case case_attempt "injected_transport_fault")

-- The injected disconnect after three events.
unfoldable pub inject_cut : String → ℕ → Stream → Outcome
inject_cut case case_attempt st =
    if str_eq case "stream_cut" && (leb 3 st.count && not st.cut)
    then after_cut st.server.cut_mode
        (log_event (record st { cut = true }) "injected_stream_cut" case case_attempt
          (("mode", str (mode_name st.server.cut_mode)) ∷ []))
        case case_attempt
    else going st

-- What a write leads to: one more line with the writes that are left, or a reset.
abbrev pub written : String → ℕ → Stream → Line → Option (Option ℕ) → Outcome
written case case_attempt st line (some left) = going (record st {
  accepts = left;
  sent = st.sent ++ line ∷ [];
  terminal_sent = st.terminal_sent || is_terminal line;
})
written case case_attempt st line none = returned (
    closed_upstream
      (log_event st "downstream_closed" case case_attempt (("protocol", str "openai") ∷ [])) case
      case_attempt "client_disconnect")

unfoldable pub write_line : String → ℕ → Stream → Line → Outcome
write_line case case_attempt st line =
    if st.cut then going st else written case case_attempt st line (take_write st.accepts)

-- One round of the loop.
unfoldable pub round : ℕ → String → ℕ → Stream → Line → Outcome
unfolding count_bytes read_event inject_cut write_line
round attempt case case_attempt st line = then_do (count_bytes st line) λ st₁.
    then_do (read_event attempt case case_attempt st₁ line)
      λ st₂. then_do (inject_cut case case_attempt st₂) λ st₃. write_line case case_attempt st₃ line

-- The loop goes on after a round that was continued.
abbrev pub then_next : Outcome → (Stream → Outcome) → Outcome
then_next (continued st) f = f st
then_next (going st) f = f st
then_next (returned st) f = returned st
then_next (raised e st) f = raised e st

unfoldable pub run_lines : ℕ → String → ℕ → List Line → Stream → Outcome
unfolding round
run_lines attempt case case_attempt [] st = going st
run_lines attempt case case_attempt (line ∷ lines) st =
    then_next (round attempt case case_attempt st line) (run_lines attempt case case_attempt lines)

-- After the last line: `stream_end`, and an error where no terminal line came.
abbrev pub finish : String → ℕ → Stream → Outcome
finish case case_attempt st =
    let ended = log_event st "stream_end" case case_attempt (
      ("protocol", str "openai")
      ∷ ("terminal_received", bool st.terminal_received)
      ∷ ("terminal_sent", bool st.terminal_sent)
      ∷ ("upstream_drained", bool true)
      ∷ []) in
    if st.terminal_received then returned ended else raised value_error ended

abbrev pub opening : LiveServer → Option ℕ → Stream
opening s accepts = record {
  server = s;
  cut = false;
  count = 0;
  total = 0;
  terminal_received = false;
  terminal_sent = false;
  accepts = accepts;
  sent = [];
}

unfoldable pub forward_stream : ℕ → String → ℕ → List Line → LiveServer → Option ℕ → Outcome
unfolding run_lines
forward_stream attempt case case_attempt lines s accepts =
    then_next (run_lines attempt case case_attempt lines (opening s accepts))
      (finish case case_attempt)
