-- ===== src/AnthropicProtocol/Request/Fixed.antt =====
-- examples/gateway-accounting/anthropic_protocol.py: a body that `checked_body` lets through, against the
-- fixed request.
use otelcol_genai_sketches.Json.Laws.{is_text_str}
use otelcol_genai_sketches.Base.{
  and_both, ℕ, String, Bool, true, false, List, [], ◌∷◌, ◌++◌, ◌&&◌, not, ==_iff, one_of, ◌≡◌, refl,
  sym, ap, ◌∙◌, subst,
}
use otelcol_genai_sketches.Base.Errors.{ok, value_error, raise_if, ◌>>=◌, ◌>>◌}
use otelcol_genai_sketches.Base.Errors.Laws.{ok-inj, >>=-ok, raise_if-ok}
use otelcol_genai_sketches.Json.{
  Value, null, bool, int, real, pos, negsuc, str, dict, arr, Fields, nil, cons, nat, get, get_or,
  is_text,
}
use otelcol_genai_sketches.Analyze.Counts.{anthropic}
use otelcol_genai_sketches.AnthropicProtocol.{model_name, max_output}
use otelcol_genai_sketches.AnthropicProtocol.Request.{
  streams, request_body, live_cases, content_of, body_of,
}
use otelcol_genai_sketches.AnthropicProtocol.Request.Check.{
  checked_body, checked_fields, check_messages, messages_of, keys_within, has_fixed_head, is_int,
  is_flag, is_empty_list, expected_stream, has_fixed_shape,
}
use otelcol_genai_sketches.AnthropicProtocol.Request.Said.{said, said_content, check_messages-said}

is_int-nat : (n : ℕ) (v : Value) → is_int n v ≡ true → v ≡ nat n
is_int-nat n (int (pos m)) h = ap nat ((==_iff m n).0 h)
is_int-nat n (int (negsuc m)) h = cc
is_int-nat n null h = cc
is_int-nat n (bool b) h = cc
is_int-nat n (real r) h = cc
is_int-nat n (arr vs) h = cc
is_int-nat n (str s) h = cc
is_int-nat n (dict fs) h = cc

is_flag-bool : (b : Bool) (v : Value) → is_flag b v ≡ true → v ≡ bool b
is_flag-bool true (bool true) h = refl
is_flag-bool true (bool false) h = cc
is_flag-bool false (bool true) h = cc
is_flag-bool false (bool false) h = refl
is_flag-bool true null h = cc
is_flag-bool true (int n) h = cc
is_flag-bool true (real r) h = cc
is_flag-bool true (arr vs) h = cc
is_flag-bool true (str s) h = cc
is_flag-bool true (dict fs) h = cc
is_flag-bool false null h = cc
is_flag-bool false (int n) h = cc
is_flag-bool false (real r) h = cc
is_flag-bool false (arr vs) h = cc
is_flag-bool false (str s) h = cc
is_flag-bool false (dict fs) h = cc

-- The fixed request is built of the content of its case.
pub request_body-body_of :
    (case : String) (nonce : Value) (e : Fields)
    → request_body (str model_name) case anthropic nonce ≡ ok e
    → (c : Value) × (content_of case nonce ≡ ok c) × (e ≡ body_of (str model_name) case anthropic c)
unfolding request_body
request_body-body_of case nonce e h =
    let (_, built) =
      raise_if-ok (not (one_of case live_cases)) value_error
        (content_of case nonce >>= λ content. ok (body_of (str model_name) case anthropic content))
        e h in
    let (c, content, same) =
      >>=-ok (content_of case nonce)
        (λ content. ok (body_of (str model_name) case anthropic content)) e built in
    (c, content, sym (ok-inj _ e same))

-- The body agrees with the fixed request in what the provider acts on.
abbrev pub AgreesWith : Fields → Fields → Type 0
AgreesWith body fixed =
    (get "model" body ≡ get "model" fixed)
    × (get "max_tokens" body ≡ get "max_tokens" fixed)
    × (get_or "stream" (bool false) body ≡ get "stream" fixed)
    × (said (get "messages" body) ≡ said (get "messages" fixed))
    × (get_or "system" (arr nil) body ≡ arr nil)
    × (keys_within ("model" ∷ "max_tokens" ∷ "messages" ∷ "stream" ∷ "system" ∷ []) body ≡ true)

not-false : (b : Bool) → not b ≡ false → b ≡ true
not-false true h = refl
not-false false h = cc

append_nil : {A : Type 0} (xs : List A) → xs ++ [] ≡ xs
append_nil [] = refl
append_nil (x ∷ xs) = ap (λ ys. x ∷ ys) (append_nil xs)

is_empty_list-nil : (v : Value) → is_empty_list v ≡ true → v ≡ arr nil
is_empty_list-nil (arr nil) h = refl
is_empty_list-nil (arr (cons v vs)) h = cc
is_empty_list-nil null h = cc
is_empty_list-nil (bool b) h = cc
is_empty_list-nil (int n) h = cc
is_empty_list-nil (real r) h = cc
is_empty_list-nil (str s) h = cc
is_empty_list-nil (dict fs) h = cc

agrees_by :
    (case : String) (c : Value) (body fixed : Fields)
    → fixed ≡ body_of (str model_name) case anthropic c
    → (has_fixed_head (streams case) body ≡ true)
    → (said (get "messages" body) ≡ said_content c)
    → (keys_within ("model" ∷ "max_tokens" ∷ "messages" ∷ "stream" ∷ "system" ∷ []) body
        && is_empty_list (get_or "system" (arr nil) body))
      ≡ true
    → AgreesWith body fixed
agrees_by case c body fixed e head says shape =
    let (head', stream) =
      and_both (is_text model_name (get "model" body) && is_int max_output (get "max_tokens" body))
        (is_flag (streams case) (get_or "stream" (bool false) body)) head in
    let (model, limit) =
      and_both (is_text model_name (get "model" body)) (is_int max_output (get "max_tokens" body))
        head' in
    let (within, empty) =
      and_both (keys_within ("model" ∷ "max_tokens" ∷ "messages" ∷ "stream" ∷ "system" ∷ []) body)
        (is_empty_list (get_or "system" (arr nil) body)) shape in
    (
      is_text_str model_name (get "model" body) model ∙ sym (ap (get "model") e),
      is_int-nat max_output (get "max_tokens" body) limit ∙ sym (ap (get "max_tokens") e),
      is_flag-bool (streams case) (get_or "stream" (bool false) body) stream
          ∙ sym (ap (get "stream") e),
      says ∙ sym (append_nil (said_content c)) ∙ sym (ap (λ f. said (get "messages" f)) e),
      is_empty_list-nil (get_or "system" (arr nil) body) empty,
      within,
    )

checked_fields-AgreesWith :
    (body : Fields) (case : String) (nonce : Value) (passed : Fields)
    → checked_fields body case nonce ≡ ok passed
    → (passed ≡ body)
      × (fixed : Fields) × (request_body (str model_name) case anthropic nonce ≡ ok fixed)
      × AgreesWith body fixed
unfolding checked_fields
checked_fields-AgreesWith body case nonce passed h =
    let (shape, opened) =
      raise_if-ok (not (has_fixed_shape body)) value_error
        (expected_stream case nonce >>= λ stream.
          raise_if (not (has_fixed_head stream body)) value_error
          >> (check_messages case nonce (messages_of (get "messages" body)) >>= λ checked. ok body))
        passed h in
    let (stream, expected, headed) =
      >>=-ok (expected_stream case nonce)
        (λ stream.
          raise_if (not (has_fixed_head stream body)) value_error
          >> (check_messages case nonce (messages_of (get "messages" body)) >>= λ checked. ok body))
        passed opened in
    let (fixed, requested, streamed) =
      >>=-ok (request_body (str model_name) case anthropic nonce) (λ fixed. ok (streams case))
        stream expected in
    let (head, messaged) =
      raise_if-ok (not (has_fixed_head stream body)) value_error
        (check_messages case nonce (messages_of (get "messages" body)) >>= λ checked. ok body)
        passed headed in
    let (checked, said_well, same) =
      >>=-ok (check_messages case nonce (messages_of (get "messages" body))) (λ checked. ok body)
        passed messaged in
    let (c, content, says) = check_messages-said case nonce (get "messages" body) said_well in
    let (d, content', built) = request_body-body_of case nonce fixed requested in
    (
      sym (ok-inj body passed same),
      fixed,
      requested,
      agrees_by case c body fixed
          (built
            ∙ ap (body_of (str model_name) case anthropic) (ok-inj d c (sym content' ∙ content)))
          (ap (λ s. has_fixed_head s body) (ok-inj (streams case) stream streamed)
            ∙ not-false (has_fixed_head stream body) head)
          says (not-false (has_fixed_shape body) shape),
    )

-- A body that the check lets through is the one that came, and agrees with the fixed request of the
-- case: in the model, the output limit, the streaming mode and, in order, every text of its messages;
-- it has no system content and no other field.
pub checked_body-AgreesWith :
    (value : Value) (case : String) (nonce : Value) (body : Fields)
    → checked_body value case nonce ≡ ok body
    → (value ≡ dict body)
      × (fixed : Fields) × (request_body (str model_name) case anthropic nonce ≡ ok fixed)
      × AgreesWith body fixed
unfolding checked_body
checked_body-AgreesWith (dict fs) case nonce body h =
    let (same, fixed, requested, agrees) = checked_fields-AgreesWith fs case nonce body h in
    (sym (ap dict same), fixed, requested, subst (λ b. AgreesWith b fixed) (sym same) agrees)
checked_body-AgreesWith null case nonce body h = cc
checked_body-AgreesWith (bool b) case nonce body h = cc
checked_body-AgreesWith (int n) case nonce body h = cc
checked_body-AgreesWith (real r) case nonce body h = cc
checked_body-AgreesWith (str s) case nonce body h = cc
checked_body-AgreesWith (arr vs) case nonce body h = cc
