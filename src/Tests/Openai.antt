-- ===== src/Tests/Openai.antt =====
-- Requests through the relay for OpenAI (gateway-accounting/live.py).
use otelcol_genai_sketches.Base.{ℕ, false, [], ◌∷◌, none, some, ◌≡◌, refl}
use otelcol_genai_sketches.Base.Errors.{ok}
use otelcol_genai_sketches.Json.{str, nat, dict, Fields, fields, object, array}
use otelcol_genai_sketches.Json.Equality.{value_eq}
use otelcol_genai_sketches.Ledger.{completed, reserved_count}
use otelcol_genai_sketches.Trial.{model_name, budget_used}
use otelcol_genai_sketches.Trial.Validate.{validate}
use otelcol_genai_sketches.LiveAnthropic.{LiveServer, cancel}
use otelcol_genai_sketches.LiveOpenai.Request.{checked_body, fixed_message, settled}
use otelcol_genai_sketches.LiveOpenai.Request.Fixed.{IsFixed, checked_body-IsFixed}
use otelcol_genai_sketches.LiveOpenai.Forward.{Relay, Request, Upstream, answered, replied, do_post}
use otelcol_genai_sketches.LiveOpenai.Forward.Active.{do_post_active}
use otelcol_genai_sketches.LiveOpenai.Forward.Calls.{CallsSafely, do_post-CallsSafely}

-- A gateway has renamed the limit.
abbrev body : Fields
body = fields (
    ("model", str model_name)
    ∷ ("messages", array (fixed_message ∷ []))
    ∷ ("max_tokens", nat 512)
    ∷ ("reasoning_effort", str "none")
    ∷ [])

abbrev renamed : Fields
renamed = fields (
    ("model", str model_name)
    ∷ ("messages", array (fixed_message ∷ []))
    ∷ ("reasoning_effort", str "none")
    ∷ ("max_completion_tokens", nat 512)
    ∷ [])

checked_body-IsFixed_example : IsFixed (settled renamed)
unfolding checked_body validate value_eq
checked_body-IsFixed_example = checked_body-IsFixed (dict body) (settled renamed) refl

abbrev server : LiveServer
server = record {
  budget = 5000000;
  max_attempts = 2;
  cut_mode = cancel;
  history = [];
  records = [];
}

abbrev relay : Relay
relay = record { server = server; case = "missing"; attempts = 0; active = 0; failed = false }

abbrev request : Request
request = record {
  transfer_encoding = false;
  content_lengths = some 260 ∷ [];
  value = some (dict body);
}

abbrev message : Fields
message = fields (
    ("model", str model_name)
    ∷ ("usage", object (("prompt_tokens", nat 30) ∷ ("completion_tokens", nat 400) ∷ []))
    ∷ [])

abbrev provider : Fields → Upstream
provider sent = answered 900 (some (dict message)) []

abbrev size_of : Fields → ℕ
size_of sent = 280

do_post-CallsSafely_example :
    CallsSafely size_of server
      (do_post size_of relay request provider none)
      (do_post size_of relay request provider none).call
do_post-CallsSafely_example = do_post-CallsSafely size_of relay request provider none tt

-- The client does not see the usage that the ledger has.
missing_run :
    (do_post size_of relay request provider none).answer
    ≡ replied 200 (object (("model", str model_name) ∷ []))
unfolding do_post budget_used reserved_count
missing_run = refl

cost_run :
    budget_used (do_post size_of relay request provider none).relay.server.history ≡ ok 607500
unfolding do_post budget_used completed reserved_count
cost_run = refl

do_post_active_example : (do_post size_of relay request provider none).relay.active ≡ relay.active
do_post_active_example = do_post_active size_of relay request provider none
