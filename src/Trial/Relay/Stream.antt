-- ===== src/Trial/Relay/Stream.antt =====
-- examples/integrations/litellm/provider-trial/relay.py: the loop of `Handler.handle_post` over the
-- lines of a streamed answer. The client takes a bounded number of writes before it resets the
-- connection, of which the head of the response is the first. `shutdown` is whether the injected
-- disconnect succeeds. The source catches an OSError of neither of these two.
pub mod Drained
use otelcol_genai_sketches.Base.{
  ℕ, suc, ◌+◌, String, Bool, true, false, List, [], ◌∷◌, ◌++◌, ◌||◌, ◌&&◌, not, if◌then◌else◌,
  Option, none, some, leb, ltb, str_eq,
}
use otelcol_genai_sketches.Base.Errors.{Error, value_error, attribute_error, os_error}
use otelcol_genai_sketches.Json.{Value, bool, str, nat, dict, Fields, fields, get, truthy}
use otelcol_genai_sketches.Ledger.{History, provider_complete}
use otelcol_genai_sketches.Provider.Request.{take_write}
use otelcol_genai_sketches.Trial.{usage_only}

-- A budget of 0 stands for every one that is not positive and finite.
pub record Relay : Type 0 where
  pub budget : ℕ
  pub history : History
  pub received : List String
  pub events : List Fields

-- A line of the stream: its length, and, for a data line other than the terminal one, what
-- `json.loads` makes of it.
pub data Line : Type 0 where
  plain : ℕ → Line
  data_line : ℕ → Option Value → Line

abbrev pub line_length : Line → ℕ
line_length (plain n) = n
line_length (data_line n v) = n

abbrev pub log_event : Relay → String → String → List (String × Value) → Relay
log_event r event case more = record r {
  events = r.events ++ fields (("event", str event) ∷ ("case", str case) ∷ more) ∷ [];
}

abbrev pub log_complete : Relay → ℕ → Value → Value → Relay
log_complete r attempt usage model = record r {
  history = r.history ++ provider_complete attempt (usage_only usage) model ∷ [];
}

-- The variables of the loop, with the lines that were written to the client.
pub record Drain : Type 0 where
  pub relay : Relay
  pub cut : Bool
  pub chunks : ℕ
  pub received_bytes : ℕ
  pub accepts : Option ℕ
  pub sent : List Line

pub data Outcome : Type 0 where
  drained : Drain → Outcome
  stopped : Error → Drain → Outcome

abbrev pub then_do : Outcome → (Drain → Outcome) → Outcome
then_do (drained st) f = f st
then_do (stopped e st) f = stopped e st

-- The limits on a line and on the stream.
unfoldable pub count_bytes : Drain → Line → Outcome
count_bytes st line =
    let counted = record st { received_bytes = st.received_bytes + line_length line } in
    if ltb 1000000 (line_length line) || ltb 4000000 (st.received_bytes + line_length line)
    then stopped value_error counted
    else drained counted

-- A decoded event; one that is no dict raises when it is asked for its usage.
unfoldable pub read_event : ℕ → Drain → Line → Outcome
unfolding usage_only
read_event attempt st (plain n) = drained st
read_event attempt st (data_line n none) = stopped value_error st
read_event attempt st (data_line n (some (dict decoded))) =
    let counted = record st { chunks = st.chunks + 1 } in
    if truthy (get "usage" decoded)
    then drained (record counted {
      relay = log_complete st.relay attempt (get "usage" decoded) (get "model" decoded);
    })
    else drained counted
read_event attempt st (data_line n (some value)) =
    stopped attribute_error (record st { chunks = st.chunks + 1 })

abbrev pub disconnect : Bool → Drain → Outcome
disconnect true st = drained st
disconnect false st = stopped os_error st

-- The injected disconnect after three events.
unfoldable pub inject_cut : ℕ → String → Bool → Drain → Outcome
inject_cut attempt case shutdown st =
    if str_eq case "stream_cut" && leb 3 st.chunks && not st.cut
    then disconnect shutdown (record st {
      cut = true;
      relay = log_event st.relay "injected_stream_disconnect" case (("attempt", nat attempt) ∷ []);
    })
    else drained st

-- What a write leads to: one more line with the writes that are left, or a reset.
abbrev pub written : ℕ → String → Drain → Line → Option (Option ℕ) → Outcome
written attempt case st line (some left) =
    drained (record st { accepts = left; sent = st.sent ++ line ∷ [] })
written attempt case st line none = drained (record st {
  cut = true;
  relay = log_event st.relay "client_disconnected" case (("attempt", nat attempt) ∷ []);
})

unfoldable pub write_line : ℕ → String → Drain → Line → Outcome
write_line attempt case st line =
    if st.cut then drained st else written attempt case st line (take_write st.accepts)

-- One round of the loop.
unfoldable pub round : ℕ → String → Bool → Drain → Line → Outcome
unfolding count_bytes read_event inject_cut write_line
round attempt case shutdown st line = then_do (count_bytes st line) λ st₁.
    then_do (read_event attempt st₁ line)
      λ st₂. then_do (inject_cut attempt case shutdown st₂) λ st₃. write_line attempt case st₃ line

unfoldable pub run_lines : ℕ → String → Bool → List Line → Drain → Outcome
unfolding round
run_lines attempt case shutdown [] st = drained st
run_lines attempt case shutdown (line ∷ lines) st =
    then_do (round attempt case shutdown st line) (run_lines attempt case shutdown lines)

abbrev pub opening : Relay → Option ℕ → Drain
opening r accepts = record {
  relay = r;
  cut = false;
  chunks = 0;
  received_bytes = 0;
  accepts = accepts;
  sent = [];
}

abbrev finish : ℕ → String → Drain → Outcome
finish attempt case st = drained (record st {
  relay =
      log_event st.relay "stream_drained" case
        (("attempt", nat attempt) ∷ ("chunks", nat st.chunks) ∷ []);
})

-- `end_headers`, which writes the head of the response outside the try; with what the write leads to.
abbrev pub write_head : Relay → Option (Option ℕ) → Outcome
write_head r none = stopped os_error (opening r none)
write_head r (some left) = drained (opening r left)

-- What follows the head.
abbrev pub drain_lines : ℕ → String → List Line → Bool → Outcome → Outcome
drain_lines attempt case lines shutdown head =
    then_do head λ st. then_do (run_lines attempt case shutdown lines st) (finish attempt case)

unfoldable pub drain : Relay → ℕ → String → List Line → Option ℕ → Bool → Outcome
unfolding run_lines
drain r attempt case lines accepts shutdown =
    drain_lines attempt case lines shutdown (write_head r (take_write accepts))
