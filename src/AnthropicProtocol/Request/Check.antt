-- ===== src/AnthropicProtocol/Request/Check.antt =====
-- examples/gateway-accounting/anthropic_protocol.py: `checked_body`, the check of what a gateway made
-- of the fixed request.
use otelcol_genai_sketches.Base.{
  ℕ, String, Bool, true, false, List, [], ◌∷◌, ◌++◌, ◌||◌, ◌&&◌, not, if◌then◌else◌, Option, none,
  some, ◌==◌, leb, length, one_of, all, map,
}
use otelcol_genai_sketches.Base.Errors.{Result, ok, err, value_error, raise_if, ◌>>=◌, ◌>>◌}
use otelcol_genai_sketches.Json.{
  Value, bool, int, pos, str, dict, arr, Fields, nil, cons, object, items, keys, has, get, get_or,
  is_text,
}
use otelcol_genai_sketches.Analyze.Counts.{anthropic}
use otelcol_genai_sketches.AnthropicProtocol.{model_name, max_output}
use otelcol_genai_sketches.AnthropicProtocol.Request.{
  prompt, is_cache_case, streams, cache_prefix, request_body,
}

-- `set(value) <= {…}` and `set(value) == {…}`, of a dict's keys.
abbrev pub keys_within : List String → Fields → Bool
keys_within names fs = all (λ k. one_of k names) (keys fs)

abbrev pub keys_are : List String → Fields → Bool
keys_are names fs = keys_within names fs && all (λ k. has k fs) names

-- `value == {…}`, where the right side is a dict of texts.
abbrev pub is_texts : List (String × String) → Value → Bool
is_texts entries (dict fs) =
    keys_are (map (λ e. e.0) entries) fs && all (λ e. is_text e.1 (get e.0 fs)) entries
is_texts entries _ = false

abbrev pub is_empty_list : Value → Bool
is_empty_list (arr nil) = true
is_empty_list _ = false

abbrev pub is_int : ℕ → Value → Bool
is_int n (int (pos m)) = m == n
is_int n _ = false

-- `type(v) is bool and v == b`
abbrev pub is_flag : Bool → Value → Bool
is_flag true (bool b) = b
is_flag false (bool b) = not b
is_flag _ _ = false

-- The dicts of a list that has no other elements.
abbrev pub dicts : List Value → Option (List Fields)
dicts [] = some []
dicts (dict fs ∷ vs) = elim (dicts vs) [ some ds ↦ some (fs ∷ ds) | none ↦ none ]
dicts (_ ∷ vs) = none

-- `messages`, where it is a list of one or two dicts.
abbrev pub messages_of : Value → Option (List Fields)
messages_of (arr vs) =
    if leb 1 (length (items vs)) && leb (length (items vs)) 2 then dicts (items vs) else none
messages_of _ = none

-- The blocks of one message's content.
abbrev pub blocks_of : Value → List Value
blocks_of (arr vs) = items vs
blocks_of content = object (("type", str "text") ∷ ("text", content) ∷ []) ∷ []

-- `set(message) == {"role", "content"} and message["role"] == "user"`
abbrev pub is_user : Fields → Bool
is_user message = keys_are ("role" ∷ "content" ∷ []) message && is_text "user" (get "role" message)

-- The loop that extends `blocks`; the message's keys are checked first.
unfoldable pub user_blocks : List Fields → Result (List Value)
user_blocks [] = ok []
user_blocks (message ∷ messages) =
    raise_if (not (is_user message)) value_error
    >> (user_blocks messages >>= λ rest. ok (blocks_of (get "content" message) ++ rest))

abbrev pub is_hint : Value → Bool
is_hint v =
    is_texts (("type", "ephemeral") ∷ []) v
    || is_texts (("type", "ephemeral") ∷ ("ttl", "5m") ∷ []) v

-- One block against the wanted text.
abbrev pub is_wanted : String → Value → Bool
is_wanted wanted (dict block) =
    keys_within ("type" ∷ "text" ∷ "cache_control" ∷ []) block
    && is_text "text" (get "type" block)
    && is_text wanted (get "text" block)
    && (not (has "cache_control" block) || is_hint (get "cache_control" block))
is_wanted wanted _ = false

-- The blocks against the wanted texts, in number and each in its place.
abbrev pub all_wanted : List String → List Value → Bool
all_wanted [] [] = true
all_wanted (w ∷ ws) (b ∷ bs) = is_wanted w b && all_wanted ws bs
all_wanted _ _ = false

-- `content`, where a single text block stands for its text.
abbrev pub is_prompt_block : Value → Bool
is_prompt_block (arr (cons v nil)) = is_texts (("type", "text") ∷ ("text", prompt) ∷ []) v
is_prompt_block _ = false

abbrev pub is_prompt : Value → Bool
is_prompt content = is_prompt_block content || is_text prompt content

-- The one message of a case without a cache.
unfoldable pub plain_message : List Fields → Result (Unit {0})
plain_message (message ∷ []) =
    raise_if
      (not (
        keys_are ("role" ∷ "content" ∷ []) message
        && is_text "user" (get "role" message)
        && is_prompt (get "content" message)))
      value_error
plain_message _ = err value_error

-- The messages of a case with a cache.
unfoldable pub cache_messages : Value → List Fields → Result (Unit {0})
unfolding cache_prefix user_blocks
cache_messages nonce messages = user_blocks messages >>= λ blocks. cache_prefix nonce >>= λ prefix.
    raise_if (not (all_wanted (prefix ∷ "Reply only OK." ∷ []) blocks)) value_error

unfoldable pub check_messages : String → Value → Option (List Fields) → Result (Unit {0})
unfolding cache_messages plain_message
check_messages case nonce none = err value_error
check_messages case nonce (some messages) =
    if is_cache_case case then cache_messages nonce messages else plain_message messages

-- `expected["stream"]`, where the case and the nonce are valid.
abbrev pub expected_stream : String → Value → Result Bool
expected_stream case nonce =
    request_body (str model_name) case anthropic nonce >>= λ body. ok (streams case)

abbrev pub has_fixed_head : Bool → Fields → Bool
has_fixed_head stream body =
    is_text model_name (get "model" body)
    && is_int max_output (get "max_tokens" body)
    && is_flag stream (get_or "stream" (bool false) body)

-- The known fields only, and no system content.
abbrev pub has_fixed_shape : Fields → Bool
has_fixed_shape body =
    keys_within ("model" ∷ "max_tokens" ∷ "messages" ∷ "stream" ∷ "system" ∷ []) body
    && is_empty_list (get_or "system" (arr nil) body)

unfoldable pub checked_fields : Fields → String → Value → Result Fields
unfolding request_body check_messages
checked_fields body case nonce =
    raise_if (not (has_fixed_shape body)) value_error
    >> (expected_stream case nonce >>= λ stream.
        raise_if (not (has_fixed_head stream body)) value_error
        >> (check_messages case nonce (messages_of (get "messages" body)) >>= λ checked. ok body))

unfoldable pub checked_body : Value → String → Value → Result Fields
unfolding checked_fields
checked_body (dict body) case nonce = checked_fields body case nonce
checked_body _ case nonce = err value_error
