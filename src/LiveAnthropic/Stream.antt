-- ===== src/LiveAnthropic/Stream.antt =====
-- examples/gateway-accounting/live_anthropic.py: `LiveHandler.forward_stream`, over the events that
-- `stream_frames` yields. A frame's raw bytes stand for the value that they carry. The peer takes a
-- bounded number of writes before it resets the connection. The head of the response is taken, and an
-- exception of `stream_frames` after its last frame is left out.
pub mod Sent
pub mod Provisional
use otelcol_genai_sketches.Base.{
  ℕ, suc, zero, ◌+◌, ◌-◌, ◌*◌, ◌<◌, ◌≤◌, String, Bool, true, false, List, [], ◌∷◌, ◌++◌, ◌||◌, ◌&&◌,
  not, if◌then◌else◌, Option, none, some, ◌==◌, leb, ltb, length, str_eq, one_of, ◌≡◌, refl, arith,
  any,
}
use otelcol_genai_sketches.Base.Errors.{Error, value_error, attribute_error}
use otelcol_genai_sketches.Json.{
  Value, null, bool, str, nat, dict, Fields, end, fields, get, get_or, has, update, pop, is_text,
}
use otelcol_genai_sketches.AnthropicProtocol.{usage_only}
use otelcol_genai_sketches.LiveAnthropic.{
  LiveServer, CutMode, cancel, drain, observed_usage, append_record, is_empty,
}
use otelcol_genai_sketches.Provider.Request.{take_write}

-- The local variables of the loop, with what has been written to the client.
pub record Stream : Type 0 where
  pub server : LiveServer
  pub usage : Fields
  pub model : Value
  pub cut : Bool
  pub deltas : ℕ
  pub terminal_received : Bool
  pub terminal_sent : Bool
  pub final_output : Bool
  pub accepts : Option ℕ
  pub sent : List Fields

pub data Outcome : Type 0 where
  going returned : Stream → Outcome
  raised : Error → Stream → Outcome

-- `get` on a value that may be no dict.
abbrev observe : ℕ → String → ℕ → Stream → Bool → Stream
observe attempt case case_attempt st final = record st {
  server = observed_usage st.server attempt case case_attempt (dict st.usage) st.model final;
}

abbrev on_start : ℕ → String → ℕ → Stream → Value → Outcome
on_start attempt case case_attempt st (dict message) =
    let st' = record st {
      model = get "model" message;
      usage = update st.usage (usage_only (get "usage" message));
    } in
    going (observe attempt case case_attempt st' false)
on_start attempt case case_attempt st _ = raised attribute_error st

abbrev on_delta : ℕ → String → ℕ → Stream → Value → Stream
on_delta attempt case case_attempt st usage =
    let st' = record st {
      usage = update st.usage (usage_only usage);
      final_output = st.final_output || has "output_tokens" (usage_only usage);
    } in
    observe attempt case case_attempt st' false

abbrev on_stop : ℕ → String → ℕ → Stream → Stream
on_stop attempt case case_attempt st =
    let st' = record st {
      terminal_received = true;
      usage = if st.final_output then st.usage else pop "output_tokens" st.usage;
    } in
    observe attempt case case_attempt st' true

-- The tests on the event's type.
unfoldable pub read_event : ℕ → String → ℕ → Stream → Fields → Outcome
unfolding usage_only
read_event attempt case case_attempt st v =
    if is_text "error" (get "type" v)
    then raised value_error st
    else if is_text "message_start" (get "type" v)
    then on_start attempt case case_attempt st (get_or "message" (dict end) v)
    else if is_text "message_delta" (get "type" v)
    then going (on_delta attempt case case_attempt st (get "usage" v))
    else if is_text "message_stop" (get "type" v)
    then going (on_stop attempt case case_attempt st)
    else if is_text "content_block_delta" (get "type" v)
    then going (record st { deltas = st.deltas + 1 })
    else going st

abbrev mode_name : CutMode → String
mode_name drain = "drain"
mode_name cancel = "cancel"

abbrev log_event : Stream → String → String → ℕ → List (String × Value) → Stream
log_event st event case case_attempt more = record st {
  server =
      append_record st.server
        (("event", str event) ∷ ("case", str case) ∷ ("attempt", nat case_attempt) ∷ more);
}

abbrev closed_upstream : Stream → String → ℕ → String → Stream
closed_upstream st case case_attempt reason =
    log_event st "upstream_closed_by_relay" case case_attempt
      (("provider_usage", str "partial") ∷ ("reason", str reason) ∷ [])

abbrev after_cut : CutMode → Stream → String → ℕ → Outcome
after_cut drain st case case_attempt = going st
after_cut cancel st case case_attempt =
    returned (closed_upstream st case case_attempt "injected_transport_fault")

-- The injected disconnect, after three content deltas.
unfoldable pub inject_cut : String → ℕ → Stream → Outcome
inject_cut case case_attempt st =
    if str_eq case "stream_cut" && leb 3 st.deltas && not st.cut
    then after_cut st.server.cut_mode
        (log_event (record st { cut = true }) "injected_stream_cut" case case_attempt
          (("mode", str (mode_name st.server.cut_mode)) ∷ []))
        case case_attempt
    else going st

-- What is written of a frame.
abbrev pub rewritten : String → Fields → Fields
rewritten case v =
    if str_eq case "stream_missing" && is_text "message_delta" (get "type" v)
    then pop "usage" v
    else v

unfoldable pub write_frame : String → ℕ → Stream → Fields → Outcome
write_frame case case_attempt st v = if st.cut then going st else elim (take_write st.accepts) [
  | some left ↦ going (record st {
    accepts = left;
    sent = st.sent ++ rewritten case v ∷ [];
    terminal_sent = st.terminal_sent || is_text "message_stop" (get "type" v);
  })
  | none ↦ returned (
      closed_upstream
        (log_event st "downstream_closed" case case_attempt (("protocol", str "anthropic") ∷ []))
        case case_attempt "client_disconnect")
]

abbrev pub then_do : Outcome → (Stream → Outcome) → Outcome
then_do (going st) f = f st
then_do (returned st) f = returned st
then_do (raised e st) f = raised e st

-- One round of the loop.
unfoldable pub round : ℕ → String → ℕ → Stream → Fields → Outcome
unfolding read_event inject_cut write_frame
round attempt case case_attempt st v =
    then_do (read_event attempt case case_attempt st v)
      λ st₁. then_do (inject_cut case case_attempt st₁) λ st₂. write_frame case case_attempt st₂ v

unfoldable pub run_frames : ℕ → String → ℕ → List Fields → Stream → Outcome
unfolding round
run_frames attempt case case_attempt [] st = going st
run_frames attempt case case_attempt (v ∷ vs) st =
    then_do (round attempt case case_attempt st v) (run_frames attempt case case_attempt vs)

-- After the last frame: `stream_end`, and an error where no `message_stop` came.
abbrev finish : String → ℕ → Stream → Outcome
finish case case_attempt st =
    let st' = log_event st "stream_end" case case_attempt (
      ("protocol", str "anthropic")
      ∷ ("terminal_received", bool st.terminal_received)
      ∷ ("terminal_sent", bool st.terminal_sent)
      ∷ ("upstream_drained", bool true)
      ∷ []) in
    if st.terminal_received then returned st' else raised value_error st'

abbrev pub opening : LiveServer → Option ℕ → Stream
opening s accepts = record {
  server = s;
  usage = end;
  model = null;
  cut = false;
  deltas = 0;
  terminal_received = false;
  terminal_sent = false;
  final_output = false;
  accepts = accepts;
  sent = [];
}

unfoldable pub forward_stream : ℕ → String → ℕ → List Fields → LiveServer → Option ℕ → Outcome
unfolding run_frames
forward_stream attempt case case_attempt frames s accepts =
    then_do (run_frames attempt case case_attempt frames (opening s accepts))
      (finish case case_attempt)
