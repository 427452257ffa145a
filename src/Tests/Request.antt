-- ===== src/Tests/Request.antt =====
-- The fixed study request and its check (anthropic_protocol.py).
use otelcol_genai_sketches.Base.{true, [], ◌∷◌, ◌≡◌, refl}
use otelcol_genai_sketches.Base.Errors.{ok, err, value_error}
use otelcol_genai_sketches.Json.{Value, null, bool, str, nat, Fields, fields, object, array, dict}
use otelcol_genai_sketches.Analyze.Counts.{anthropic}
use otelcol_genai_sketches.AnthropicProtocol.{model_name}
use otelcol_genai_sketches.AnthropicProtocol.Request.{prompt, request_body, body_of, text_block}
use otelcol_genai_sketches.AnthropicProtocol.Request.Check.{checked_body}
use otelcol_genai_sketches.AnthropicProtocol.Request.Fixed.{AgreesWith, checked_body-AgreesWith}
use otelcol_genai_sketches.AnthropicProtocol.Request.Accepts.{checked_body-request_body}

-- A gateway's version of the request: the text stands in a block, and the system content is empty.
abbrev relayed : Value → Fields
relayed content = fields (
    ("messages", array (object (("role", str "user") ∷ ("content", content) ∷ []) ∷ []))
    ∷ ("model", str model_name)
    ∷ ("max_tokens", nat 512)
    ∷ ("stream", bool true)
    ∷ ("system", array [])
    ∷ [])

checked_body-AgreesWith_example :
    (dict (relayed (array (text_block prompt ∷ [])))
      ≡ dict (relayed (array (text_block prompt ∷ []))))
    × (fixed : Fields) × (request_body (str model_name) "stream_cut" anthropic null ≡ ok fixed)
    × AgreesWith (relayed (array (text_block prompt ∷ []))) fixed
unfolding checked_body
checked_body-AgreesWith_example =
    checked_body-AgreesWith (dict (relayed (array (text_block prompt ∷ [])))) "stream_cut" null
      (relayed (array (text_block prompt ∷ []))) refl

checked_body-request_body_example :
    checked_body (dict (body_of (str model_name) "complete" anthropic (str prompt))) "complete" null
    ≡ ok (body_of (str model_name) "complete" anthropic (str prompt))
unfolding request_body
checked_body-request_body_example =
    checked_body-request_body "complete" null
      (body_of (str model_name) "complete" anthropic (str prompt)) refl

other_text_run :
    checked_body (dict (relayed (str "Tell me a story."))) "stream_cut" null ≡ err value_error
unfolding checked_body
other_text_run = refl
