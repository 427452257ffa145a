-- ===== src/AnthropicProtocol/Request/Accepts.antt =====
-- examples/gateway-accounting/anthropic_protocol.py: `checked_body` on what `request_body` returns.
use otelcol_genai_sketches.Base.Errors.Laws.{ok-inj}
use otelcol_genai_sketches.Base.{
  String, Bool, true, false, List, [], ◌∷◌, if◌then◌else◌, some, str_eq, eq_iff, ◌≡◌, refl, sym, ap,
  subst,
}
use otelcol_genai_sketches.Base.Errors.{Result, ok, err, ◌>>=◌}
use otelcol_genai_sketches.Json.{Value, bool, str, dict, Fields, fields}
use otelcol_genai_sketches.Analyze.Counts.{anthropic}
use otelcol_genai_sketches.AnthropicProtocol.{model_name}
use otelcol_genai_sketches.AnthropicProtocol.Request.{
  prompt, is_cache_case, streams, cache_prefix, request_body, content_of, cache_content, body_of,
  cache_block, text_block,
}
use otelcol_genai_sketches.AnthropicProtocol.Request.Check.{
  checked_body, checked_fields, check_messages, cache_messages, plain_message, user_blocks,
  all_wanted, is_flag, expected_stream,
}
use otelcol_genai_sketches.AnthropicProtocol.Request.Fixed.{request_body-body_of}

-- The one message of the fixed request.
abbrev message_with : Value → List Fields
message_with c = fields (("role", str "user") ∷ ("content", c) ∷ []) ∷ []

str_eq_refl : (s : String) → str_eq s s ≡ true
str_eq_refl s = (eq_iff s s).1 refl

plain_message_accepts : (c : Value) → str prompt ≡ c → plain_message (message_with c) ≡ ok tt
unfolding plain_message
plain_message_accepts c e = subst (λ v. plain_message (message_with v) ≡ ok tt) e refl

blocks_accepted :
    (p : String)
    → all_wanted (p ∷ "Reply only OK." ∷ []) (cache_block p ∷ text_block "Reply only OK." ∷ [])
      ≡ true
blocks_accepted p = rw (str_eq_refl p) refl

cache_messages_accepts :
    (nonce : Value) (r : Result String) (c : Value)
    → cache_prefix nonce ≡ r
    → cache_content r ≡ ok c
    → cache_messages nonce (message_with c) ≡ ok tt
unfolding cache_messages user_blocks
cache_messages_accepts nonce (err e) c same h = cc
cache_messages_accepts nonce (ok p) c same h =
    subst (λ v. cache_messages nonce (message_with v) ≡ ok tt) (ok-inj _ c h)
      (rw (same, blocks_accepted p) refl)

select_accepts :
    (cached : Bool) (nonce c : Value)
    → (if cached then cache_content (cache_prefix nonce) else ok (str prompt)) ≡ ok c
    → (if cached then cache_messages nonce (message_with c) else plain_message (message_with c))
      ≡ ok tt
select_accepts true nonce c h = cache_messages_accepts nonce (cache_prefix nonce) c refl h
select_accepts false nonce c h = plain_message_accepts c (ok-inj (str prompt) c h)

check_messages_accepts :
    (case : String) (nonce c : Value)
    → content_of case nonce ≡ ok c
    → check_messages case nonce (some (message_with c)) ≡ ok tt
unfolding check_messages content_of
check_messages_accepts case nonce c h = select_accepts (is_cache_case case) nonce c h

is_flag_same : (b : Bool) → is_flag b (bool b) ≡ true
is_flag_same true = refl
is_flag_same false = refl

expected_stream_accepts :
    (case : String) (nonce : Value) (e : Fields)
    → request_body (str model_name) case anthropic nonce ≡ ok e
    → expected_stream case nonce ≡ ok (streams case)
expected_stream_accepts case nonce e h = ap (λ r. r >>= λ body. ok (streams case)) h

checked_fields_accepts :
    (case : String) (nonce c : Value) (e : Fields)
    → request_body (str model_name) case anthropic nonce ≡ ok e
    → content_of case nonce ≡ ok c
    → checked_fields (body_of (str model_name) case anthropic c) case nonce
      ≡ ok (body_of (str model_name) case anthropic c)
unfolding checked_fields
checked_fields_accepts case nonce c e h content =
    rw
      (
        expected_stream_accepts case nonce e h,
        is_flag_same (streams case),
        check_messages_accepts case nonce c content,
      )
      refl

-- The relay's own request for a case passes its check unchanged.
pub checked_body-request_body :
    (case : String) (nonce : Value) (fixed : Fields)
    → request_body (str model_name) case anthropic nonce ≡ ok fixed
    → checked_body (dict fixed) case nonce ≡ ok fixed
unfolding checked_body
checked_body-request_body case nonce fixed h =
    let (c, content, same) = request_body-body_of case nonce fixed h in
    subst (λ f. checked_fields f case nonce ≡ ok f) (sym same)
      (checked_fields_accepts case nonce c fixed h content)
