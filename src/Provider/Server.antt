-- ===== src/Provider/Server.antt =====
-- examples/gateway-accounting/provider.py: `StudyServer.record` and the completion routes and
-- `/control` of `Handler.do_POST`. The clock is a parameter: `clock n` is what `time.time_ns` returns
-- for the n-th row. A peer that resets the connection takes a bounded number of writes. The
-- telemetry route is not modelled here.
use otelcol_genai_sketches.Base.{
  ℕ, ◌+◌, String, Bool, true, false, List, [], ◌∷◌, ◌++◌, ◌||◌, ◌&&◌, not, if◌then◌else◌, Option,
  none, some, ◌==◌, leb, ltb, length, str_eq,
}
use otelcol_genai_sketches.Json.{
  Value, bool, str, dict, arr, Fields, nat, fields, pop, get, nil, end, is_dict,
}
use otelcol_genai_sketches.Analyze.Counts.{Protocol, openai, protocol_name, obj}
use otelcol_genai_sketches.Provider.{
  case_name, fixture_kind, is_deferred, native_usage, response_body,
}
use otelcol_genai_sketches.Provider.Stream.{Frame, stream_events}
use otelcol_genai_sketches.Provider.Request.{
  Server, Reply, reply, streamed, dropped, Request, empty_reply, take_write, profile, is_retry,
  rate_limited, check_request, path_protocol, control, size_of,
}

abbrev pub event_fields :
    String → Server → ℕ → Protocol → List (String × Value) → List (String × Value)
event_fields event s attempt protocol more =
    ("event", str event)
    ∷ ("case", str (case_name s.case))
    ∷ ("attempt", nat attempt)
    ∷ ("protocol", str (protocol_name protocol))
    ∷ more

-- `value["choices"] == []`
abbrev is_empty_list : Value → Bool
is_empty_list (arr nil) = true
is_empty_list _ = false

abbrev strip_usage : Fields → Option Value
strip_usage fs = if is_empty_list (get "choices" fs) then none else some (dict (pop "usage" fs))

-- What is sent of a frame's value; `none` is `continue`.
abbrev prepared : Protocol → Bool → Value → Option Value
prepared openai false (dict fs) = strip_usage fs
prepared _ _ v = some v

abbrev is_end : Fields → Bool
is_end end = true
is_end _ = false

abbrev event_is : String → Option String → Bool
event_is name none = false
event_is name (some e) = str_eq e name

abbrev is_done : Value → Bool
is_done (str s) = str_eq s "[DONE]"
is_done _ = false

abbrev or_usage_chunk : Option String → String
or_usage_chunk none = "usage_chunk"
or_usage_chunk (some e) = e

module _ (clock : ℕ → ℕ) where
  -- `StudyServer.record`
  unfoldable pub record_row : Server → List (String × Value) → Server
  record_row s kvs = record s {
    rows = s.rows ++ fields (("time_ns", nat (clock (length s.rows))) ∷ kvs) ∷ [];
  }

  abbrev record_usage : Server → ℕ → Protocol → Fields → String → Server
  record_usage s attempt protocol usage event = record_row s (
      event_fields "delivered_usage" s attempt protocol
        (("usage", dict usage) ∷ ("usage_event", str event) ∷ []))

  -- The usage of a standard `message_start`, less its provisional output count.
  abbrev start_row : Server → ℕ → Protocol → Option String → Value → Server
  start_row s attempt protocol event v =
      let usage = pop "output_tokens" (obj (get "usage" (obj (get "message" (obj v))))) in
      if event_is "message_start" event && not (is_deferred s.case) && not (is_end usage)
      then record_usage s attempt protocol usage "message_start"
      else s

  abbrev usage_row : Server → ℕ → Protocol → Option String → Value → Server
  usage_row s attempt protocol event v =
      if is_dict v && is_dict (get "usage" (obj v))
      then record_usage s attempt protocol (obj (get "usage" (obj v))) (or_usage_chunk event)
      else s

  -- The rows that a written frame leaves.
  unfoldable pub after_frame : Server → ℕ → Protocol → Option String → Value → Server
  unfolding record_row
  after_frame s attempt protocol event v =
      usage_row (start_row s attempt protocol event v) attempt protocol event v

  abbrev end_row : Server → ℕ → Protocol → String → Bool → Server
  end_row s attempt protocol event terminal_sent =
      record_row s
        (event_fields event s attempt protocol (("terminal_sent", bool terminal_sent) ∷ []))

  -- The loop over `stream_events`: it ends with `stream_end`, or with `downstream_closed` where a
  -- write fails.
  unfoldable pub send_frames :
      List Frame → Option ℕ → ℕ → Protocol → Bool → Bool → Server → Server × Reply
  unfolding after_frame
  send_frames [] accepts attempt protocol include_usage terminal_sent s =
      (end_row s attempt protocol "stream_end" terminal_sent, streamed terminal_sent)
  send_frames ((event, v) ∷ frames) accepts attempt protocol include_usage terminal_sent s =
      elim (prepared protocol include_usage v) [
        | none ↦ send_frames frames accepts attempt protocol include_usage terminal_sent s
        | some w ↦ elim (take_write accepts) [
          | none ↦ (end_row s attempt protocol "downstream_closed" terminal_sent, dropped)
          | some left ↦
              send_frames frames left attempt protocol include_usage
                (terminal_sent || is_done w || event_is "message_stop" event)
                (after_frame s attempt protocol event w)
        ]
      ]

  -- A whole reply is one write.
  abbrev send_whole : Server → Option ℕ → ℕ → Protocol → ℕ → Value → Server × Reply
  send_whole s accepts attempt protocol status v = elim (take_write accepts) [
    | none ↦ (end_row s attempt protocol "downstream_closed" false, dropped)
    | some _ ↦ (s, reply status v)
  ]

  -- `self.server.record(event="attempt", …)`, after the attempt has been counted.
  abbrev count_attempt : Server → Protocol → Bool → Bool → Server
  count_attempt s protocol stream include_usage =
      let counted = record s { attempts = s.attempts + 1 } in
      record_row counted (
        event_fields "attempt" s counted.attempts protocol (
          ("fixture_kind", str (fixture_kind s.case))
          ∷ ("usage_profile", str (profile protocol stream s.case))
          ∷ ("stream", bool stream)
          ∷ ("usage_requested", bool include_usage)
          ∷ []))

  abbrev reference_row : Server → Protocol → Server
  reference_row s protocol = record_row s (
      event_fields "reference" s s.attempts protocol (
        ("basis", str "synthetic_configured_usage")
        ∷ ("usage", dict (native_usage protocol s.case))
        ∷ []))

  abbrev delivered_row : Server → Protocol → Value → Server
  delivered_row s protocol usage =
      record_row s (event_fields "delivered_usage" s s.attempts protocol (("usage", usage) ∷ []))

  abbrev respond_whole : Server → Protocol → String → Option ℕ → Server × Reply
  respond_whole s protocol model accepts =
      let body = response_body protocol s.case model in
      let (s', r) = send_whole s accepts s.attempts protocol 200 (dict body) in
      elim r [
        | reply status v ↦ (delivered_row s' protocol (get "usage" body), reply status v)
        | other ↦ (s', other)
      ]

  abbrev respond : Server → Protocol → String → Bool → Bool → Option ℕ → Server × Reply
  respond s protocol model stream include_usage accepts =
      let referenced = reference_row s protocol in
      if stream
      then send_frames (stream_events protocol s.case model) accepts s.attempts protocol
          include_usage false referenced
      else respond_whole referenced protocol model accepts

  -- A completion request whose body has passed the checks.
  unfoldable pub completion : Server → Protocol → String → Bool → Bool → Option ℕ → Server × Reply
  unfolding record_row send_frames response_body stream_events native_usage
  completion s protocol model stream include_usage accepts =
      let counted = count_attempt s protocol stream include_usage in
      if is_retry s.case && (counted.attempts == 1)
      then send_whole counted accepts counted.attempts protocol 429 (rate_limited protocol)
      else respond counted protocol model stream include_usage accepts

  abbrev route : Server → String → Fields → Option ℕ → Server × Reply
  route s path body accepts =
      if str_eq path "/control" then control s body else elim (path_protocol path) [
        | none ↦ (s, empty_reply 404)
        | some protocol ↦ elim (check_request body) [
          | none ↦ (s, empty_reply 400)
          | some (model, stream, include_usage) ↦
              completion s protocol model stream include_usage accepts
        ]
      ]

  -- The framing checks of `do_POST`, and the dispatch on the path.
  unfoldable pub do_post : Server → Request → Server × Reply
  unfolding completion control check_request
  do_post s r = if r.transfer_encoding then (s, empty_reply 400) else elim (size_of r.lengths) [
    | none ↦ (s, empty_reply 400)
    | some size ↦
        if not (ltb 0 size && leb size 65536)
        then (s, empty_reply 413)
        else if not (r.received == size)
        then (s, empty_reply 400)
        else elim (r.body) [
          | some (dict body) ↦ route s r.path body r.accepts
          | _ ↦ (s, empty_reply 400)
        ]
  ]
