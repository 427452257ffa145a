-- ===== src/Tests/Relay.antt =====
-- One request through the live relay (live_anthropic.py).
use otelcol_genai_sketches.Base.{ℕ, false, [], ◌∷◌, none, some, ◌≡◌, refl, arith}
use otelcol_genai_sketches.Json.{null, str, nat, Fields, fields, object, dict}
use otelcol_genai_sketches.Analyze.Counts.{anthropic}
use otelcol_genai_sketches.AnthropicProtocol.{model_name, budget_used}
use otelcol_genai_sketches.Ledger.{charge, completed}
use otelcol_genai_sketches.Ledger.{reserved_count}
use otelcol_genai_sketches.AnthropicProtocol.Request.{prompt, body_of}
use otelcol_genai_sketches.LiveAnthropic.{LiveServer, drain}
use otelcol_genai_sketches.LiveAnthropic.Guard.{IsGuarded}
use otelcol_genai_sketches.LiveAnthropic.Forward.{
  Relay, Request, Upstream, answered, replied, forward,
}
use otelcol_genai_sketches.LiveAnthropic.Forward.Calls.{CallsSafely, forward-CallsSafely}

abbrev body : Fields
body = body_of (str model_name) "complete" anthropic (str prompt)

abbrev idle : LiveServer
idle = record { budget = 5000000; max_attempts = 2; cut_mode = drain; history = []; records = [] }

idle-IsGuarded : IsGuarded idle
unfolding budget_used reserved_count
idle-IsGuarded = record { within_budget = omega arith; within_limit = omega arith; numbered = tt }

abbrev relay : Relay
relay = record {
  server = idle;
  case = "complete";
  attempts = 0;
  active = 1;
  failed = false;
  cache_nonce = null;
}

abbrev request : Request
request = record {
  transfer_encoding = false;
  content_lengths = some 180 ∷ [];
  received = 180;
  value = some (dict body);
}

abbrev message : Fields
message = fields (
    ("type", str "message")
    ∷ ("model", str model_name)
    ∷ ("usage", object (("input_tokens", nat 30) ∷ ("output_tokens", nat 400) ∷ []))
    ∷ [])

abbrev provider : Fields → Upstream
provider sent = answered 900 (some (dict message)) []

abbrev size_of : Fields → ℕ
size_of sent = 180

forward-CallsSafely_example :
    CallsSafely size_of relay
      (forward size_of relay request provider none)
      (forward size_of relay request provider none).call
forward-CallsSafely_example = forward-CallsSafely size_of relay request provider none idle-IsGuarded

reply_run : (forward size_of relay request provider none).answer ≡ replied 200 (dict message)
unfolding forward budget_used reserved_count
reply_run = refl

-- The cost that the provider reported has replaced the reserve.
cost_run : budget_used (forward size_of relay request provider none).relay.server.history ≡ 609000
unfolding forward budget_used reserved_count charge completed
cost_run = refl
