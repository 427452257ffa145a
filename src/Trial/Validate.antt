-- ===== src/Trial/Validate.antt =====
-- examples/integrations/litellm/provider-trial/relay.py: `validate`, the check of a request's body.
pub mod Bounded
use otelcol_genai_sketches.Base.{
  ℕ, String, Bool, true, false, List, [], ◌∷◌, ◌||◌, ◌&&◌, not, leb, one_of, all, if◌then◌else◌,
}
use otelcol_genai_sketches.Base.Errors.{
  Result, ok, err, raise_if, value_error, type_error, attribute_error, ◌>>=◌, ◌>>◌,
}
use otelcol_genai_sketches.Json.{
  Value, null, bool, int, real, pos, negsuc, str, arr, dict, Fields, end, nat, get, get_or, is_text,
  is_null, is_str, is_dict, num_eq, keys, items, nil, cons,
}
use otelcol_genai_sketches.Analyze.Counts.{obj}
use otelcol_genai_sketches.Trial.{model_name, max_output_tokens}

-- `allowed`
abbrev pub allowed : List String
allowed =
    "model" ∷ "messages" ∷ "n" ∷ "max_completion_tokens" ∷ "reasoning_effort" ∷ "service_tier"
    ∷ "stream" ∷ "stream_options" ∷ "tools" ∷ "tool_choice" ∷ "parallel_tool_calls" ∷ "store" ∷ []

-- `type(v) is int and v in range(1, n + 1)`
abbrev pub in_range : ℕ → Value → Bool
in_range n (int (pos m)) = leb 1 m && leb m n
in_range n _ = false

-- `body.get('reasoning_effort') in ('none', 'low')`
abbrev pub is_effort : Value → Bool
is_effort v = is_text "none" v || is_text "low" v

abbrev is_message : Value → Bool
is_message (dict fs) = is_null (get "content" fs) || is_str (get "content" fs)
is_message _ = false

-- A list of messages that is not empty.
abbrev pub are_messages : Value → Bool
are_messages (arr nil) = false
are_messages (arr (cons m ms)) = all is_message (m ∷ items ms)
are_messages _ = false

-- The test of one tool; `.get` of a function that is no dict raises.
abbrev pub check_function : Value → Result (Unit {0})
check_function (dict fs) = raise_if (not (is_text "lookup_number" (get "name" fs))) value_error
check_function _ = err attribute_error

abbrev pub check_tool : Value → Result (Unit {0})
check_tool (dict tool) =
    if is_text "function" (get "type" tool)
    then check_function (get_or "function" (dict end) tool)
    else err value_error
check_tool _ = err value_error

abbrev pub check_tools : List Value → Result (Unit {0})
check_tools [] = ok tt
check_tools (tool ∷ tools) = check_tool tool >> check_tools tools

abbrev pub check_tool_list : Value → Result (Unit {0})
check_tool_list (arr tools) = check_tools (items tools)
check_tool_list _ = err value_error

-- A value that a set cannot be asked for.
abbrev unhashable : Value → Bool
unhashable (arr vs) = true
unhashable (dict fs) = true
unhashable _ = false

-- `not set(body) - allowed`
abbrev pub has_allowed_keys : Fields → Bool
has_allowed_keys body = all (λ k. one_of k allowed) (keys body)

-- The tests from the model to the messages.
abbrev pub has_bounds : Fields → Bool
has_bounds body =
    is_text model_name (get "model" body)
    && (num_eq 1 (get_or "n" (nat 1) body)
        && (in_range max_output_tokens (get "max_completion_tokens" body)
            && (is_text "default" (get_or "service_tier" (str "default") body)
                && (is_effort (get "reasoning_effort" body)
                    && are_messages (get "messages" body)))))

unfoldable pub validate : Value → Result (Unit {0})
validate (dict body) =
    raise_if (not (has_allowed_keys body)) value_error
    >> (raise_if (unhashable (get "model" body)) type_error
        >> (raise_if (not (has_bounds body)) value_error
            >> check_tool_list (get_or "tools" (arr nil) body)))
validate _ = err value_error
