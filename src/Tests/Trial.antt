-- ===== src/Tests/Trial.antt =====
-- Requests through the relay of the provider trial (integrations/litellm/provider-trial/relay.py).
use otelcol_genai_sketches.Base.{◌≤◌, true, List, [], ◌∷◌, ◌++◌, none, some, ◌≡◌, refl, arith}
use otelcol_genai_sketches.Base.Errors.{os_error, ok, attribute_error}
use otelcol_genai_sketches.Json.{Value, str, nat, dict, Fields, fields, object, arr, items_of}
use otelcol_genai_sketches.Ledger.{provider_complete, completed}
use otelcol_genai_sketches.Trial.{model_name, usage_cost, reserve_cost, usage_only, budget_used}
use otelcol_genai_sketches.Trial.Costs.{usage_cost-le_reserve}
use otelcol_genai_sketches.Trial.Validate.{validate}
use otelcol_genai_sketches.Trial.Validate.Bounded.{IsBounded, validate-IsBounded}
use otelcol_genai_sketches.Trial.Relay.Stream.{
  stopped, opening, Relay, Line, plain, data_line, drain,
}
use otelcol_genai_sketches.Trial.Relay.Stream.Drained.{ended, completions, drain-completions}
use otelcol_genai_sketches.Trial.Relay.{
  Request, Upstream, answered, delivered, failed_with, ends, handle_post,
}
use otelcol_genai_sketches.Trial.Relay.Calls.{CallsSafely, handle_post-CallsSafely}
use otelcol_genai_sketches.Trial.Relay.Stuck.{handle_post-stuck}

abbrev tool : Value
tool =
    object
      (("type", str "function") ∷ ("function", object (("name", str "lookup_number") ∷ [])) ∷ [])

abbrev body : Fields
body = fields (
    ("model", str model_name)
    ∷ (
      "messages",
      arr (items_of (object (("role", str "user") ∷ ("content", str "Count.") ∷ []) ∷ [])),
    )
    ∷ ("max_completion_tokens", nat 256)
    ∷ ("reasoning_effort", str "none")
    ∷ ("tools", arr (items_of (tool ∷ [])))
    ∷ [])

validate-IsBounded_example : IsBounded body
unfolding validate
validate-IsBounded_example = validate-IsBounded body refl

abbrev usage : Fields
usage = fields (
    ("prompt_tokens", nat 1000)
    ∷ ("completion_tokens", nat 256)
    ∷ ("prompt_tokens_details", object (("cached_tokens", nat 600) ∷ []))
    ∷ [])

usage_cost-le_reserve_example : 499000 ≤ reserve_cost 300 256
unfolding usage_cost
usage_cost-le_reserve_example =
    usage_cost-le_reserve usage 499000 300 256 refl (omega arith) (omega arith)

abbrev idle : Relay
idle = record { budget = 5000000; history = []; received = []; events = [] }

abbrev chunk : Line
chunk = data_line 60 (some (object (("choices", arr (items_of [])) ∷ [])))

abbrev last_chunk : Line
last_chunk = data_line 200 (some (object (("usage", dict usage) ∷ ("model", str model_name) ∷ [])))

abbrev lines : List Line
lines = chunk ∷ plain 1 ∷ chunk ∷ chunk ∷ last_chunk ∷ plain 14 ∷ []

drain-completions_example :
    (ended (drain idle 1 "stream_cut" lines (some 2) true)).relay.history
    ≡ idle.history ++ completions 1 0 lines
drain-completions_example = drain-completions idle 1 "stream_cut" lines (some 2) (some 1) refl

-- The usage comes after the cut, and is in the ledger.
cut_run :
    (ended (drain idle 1 "stream_cut" lines none true)).relay.history
    ≡ provider_complete 1 (usage_only (dict usage)) (str model_name) ∷ []
unfolding drain
cut_run = refl

-- A client that is gone before the head of the response leaves no line read.
gone_run : drain idle 1 "stream_complete" lines (some 0) true ≡ stopped os_error (opening idle none)
unfolding drain
gone_run = refl

abbrev request : Request
request = record { case = some "baseline"; size = 300; body = some (dict body) }

abbrev message : Fields
message = fields (("model", str model_name) ∷ ("usage", dict usage) ∷ [])

abbrev provider : Fields → Upstream
provider sent = answered 900 (some (dict message)) []

handle_post-CallsSafely_example :
    CallsSafely idle 300
      (handle_post idle request provider none true)
      (handle_post idle request provider none true).call
handle_post-CallsSafely_example = handle_post-CallsSafely idle request provider none true tt

message_run : (handle_post idle request provider none true).answer ≡ delivered message
unfolding handle_post
message_run = refl

-- The cost that the provider reported has replaced the reserve.
cost_run : budget_used (handle_post idle request provider none true).relay.history ≡ ok 499000
unfolding handle_post budget_used completed
cost_run = refl

abbrev odd_usage : Fields
odd_usage = fields (("prompt_tokens_details", nat 5) ∷ [])

abbrev odd_message : Fields
odd_message = fields (("model", str model_name) ∷ ("usage", dict odd_usage) ∷ [])

-- What the relay is left with by an answer whose details are a number.
abbrev odd_run : Relay
unfolding handle_post
odd_run =
    (handle_post idle request (λ sent. answered 90 (some (dict odd_message)) []) none true).relay

handle_post-stuck_example :
    handle_post odd_run request provider none true
    ≡ ends
        (failed_with attribute_error)
        (record odd_run { received = "baseline" ∷ "baseline" ∷ [] })
unfolding validate completed handle_post usage_only
handle_post-stuck_example =
    handle_post-stuck odd_run request "baseline" body provider none true
      (record {
        before = [];
        after = provider_complete 1 (usage_only (dict odd_usage)) (str model_name) ∷ [];
        attempt = 1;
        amount = reserve_cost 300 256;
        usage = odd_usage;
        listed = refl;
        completion = refl;
        unreadable = refl;
      })
      refl refl refl refl refl refl
