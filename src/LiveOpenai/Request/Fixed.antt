-- ===== src/LiveOpenai/Request/Fixed.antt =====
-- examples/gateway-accounting/live.py: what `checked_body` lets through.
use otelcol_genai_sketches.Base.{
  and_both, ◌==◌, str_eq, ℕ, ◌≤◌, String, Bool, true, false, ◌||◌, ◌&&◌, not, ltb, ◌≡◌, refl, sym,
  ap, ◌∙◌, arith, if◌then◌else◌, subst,
}
use otelcol_genai_sketches.Base.Errors.{ok, raise_if, value_error}
use otelcol_genai_sketches.Base.Errors.Laws.{>>=-ok, ok-inj, >>-ok}
use otelcol_genai_sketches.Json.{
  Value, null, bool, int, real, str, arr, dict, Fields, nat, get, has, put, truthy, nil, cons,
}
use otelcol_genai_sketches.Json.Laws.{get-put}
use otelcol_genai_sketches.Json.Equality.{value_eq, is_text_of, size_of, is_text_of_str}
use otelcol_genai_sketches.Trial.{model_name}
use otelcol_genai_sketches.Trial.Validate.{validate}
use otelcol_genai_sketches.Trial.Validate.Bounded.{validate-IsBounded}
use otelcol_genai_sketches.LiveOpenai.Request.{
  checked_body, Keyed, check_keyed, check_study, dict_of, rename_limit, settled, updated,
  over_limit, is_fixed, fixed_message, fixed_prompt, include_usage,
}

-- The message is the fixed prompt of the user, and nothing else.
abbrev pub IsPrompt : Value → Type 0
IsPrompt m =
    (fs : Fields) × (m ≡ dict fs)
    × (get "role" fs ≡ str "user")
    × (get "content" fs ≡ str fixed_prompt)

-- What is sent on: the fixed prompt to the fixed model, with a bounded output, without tools and
-- storage, in the default tier, and with the usage where it streams.
pub record IsFixed (body : Fields) : Type 0 where
  pub limit : ℕ
  pub limited : get "max_completion_tokens" body ≡ nat limit
  pub positive : 1 ≤ limit
  pub bounded : limit ≤ 512
  pub model : get "model" body ≡ str model_name
  pub message : Value
  pub single : get "messages" body ≡ arr (cons message nil)
  pub prompt : IsPrompt message
  pub no_tools : truthy (get "tools" body) ≡ false
  pub no_store : get "store" body ≡ bool false
  pub default_tier : get "service_tier" body ≡ str "default"
  pub reports : truthy (get "stream" body) ≡ true → get "stream_options" body ≡ include_usage

IsPrompt-value_eq : (m : Value) → value_eq fixed_message m ≡ true → IsPrompt m
unfolding value_eq
IsPrompt-value_eq (dict fs) h =
    let (size, all) = and_both (2 == size_of fs) _ h in
    let (role, rest) = and_both (has "role" fs && is_text_of "user" (get "role" fs)) _ all in
    let (content, done) =
      and_both (has "content" fs && is_text_of fixed_prompt (get "content" fs)) _ rest in
    (
      fs,
      refl,
      is_text_of_str "user" (get "role" fs) (and_both (has "role" fs) _ role).1,
      is_text_of_str fixed_prompt (get "content" fs) (and_both (has "content" fs) _ content).1,
    )
IsPrompt-value_eq null h = cc
IsPrompt-value_eq (bool b) h = cc
IsPrompt-value_eq (int n) h = cc
IsPrompt-value_eq (real x) h = cc
IsPrompt-value_eq (str s) h = cc
IsPrompt-value_eq (arr vs) h = cc

is_fixed-IsPrompt :
    (v : Value) → is_fixed v ≡ true → (m : Value) × (v ≡ arr (cons m nil)) × IsPrompt m
is_fixed-IsPrompt (arr (cons m nil)) h = (m, refl, IsPrompt-value_eq m h)
is_fixed-IsPrompt (arr nil) h = cc
is_fixed-IsPrompt (arr (cons m (cons n ms))) h = cc
is_fixed-IsPrompt null h = cc
is_fixed-IsPrompt (bool b) h = cc
is_fixed-IsPrompt (int n) h = cc
is_fixed-IsPrompt (real x) h = cc
is_fixed-IsPrompt (str s) h = cc
is_fixed-IsPrompt (dict fs) h = cc

within_limit : (v : Value) (n : ℕ) → v ≡ nat n → over_limit v ≡ false → n ≤ 512
within_limit v n same h = let few : ltb 512 n ≡ false = ap over_limit (sym same) ∙ h in ground arith

-- Another field is left as it is.
get-put_other :
    (k j : String) (v : Value) (fs : Fields) → str_eq j k ≡ false → get j (put k v fs) ≡ get j fs
get-put_other k j v fs other = get-put k j null v fs ∙ rw other refl

if_other :
    (b : Bool) (j : String) (fs : Fields)
    → str_eq j "stream_options" ≡ false
    → get j (if b then put "stream_options" include_usage fs else fs) ≡ get j fs
if_other true j fs other = get-put_other "stream_options" j include_usage fs other
if_other false j fs other = refl

-- A field that `settled` leaves as it is.
get-settled :
    (j : String) (body : Fields)
    → str_eq j "store" ≡ false
    → str_eq j "service_tier" ≡ false
    → str_eq j "stream_options" ≡ false
    → get j (settled body) ≡ get j body
get-settled j body store tier options =
    if_other (truthy (get "stream" (updated body))) j (updated body) options
    ∙ get-put_other "service_tier" j (str "default") (put "store" (bool false) body) tier
    ∙ get-put_other "store" j (bool false) body store

settled-store : (body : Fields) → get "store" (settled body) ≡ bool false
settled-store body =
    if_other (truthy (get "stream" (updated body))) "store" (updated body) refl
    ∙ get-put_other "service_tier" "store" (str "default") (put "store" (bool false) body) refl
    ∙ get-put "store" "store" null (bool false) body

settled-service_tier : (body : Fields) → get "service_tier" (settled body) ≡ str "default"
settled-service_tier body =
    if_other (truthy (get "stream" (updated body))) "service_tier" (updated body) refl
    ∙ get-put "service_tier" "service_tier" null (str "default") (put "store" (bool false) body)

if_reports :
    (b : Bool) (fs : Fields)
    → b ≡ true
    → get "stream_options" (if b then put "stream_options" include_usage fs else fs) ≡ include_usage
if_reports true fs h = get-put "stream_options" "stream_options" null include_usage fs
if_reports false fs h = cc

settled-include_usage :
    (body : Fields)
    → truthy (get "stream" (settled body)) ≡ true
    → get "stream_options" (settled body) ≡ include_usage
settled-include_usage body streams =
    if_reports (truthy (get "stream" (updated body))) (updated body) (
      sym (ap truthy (if_other (truthy (get "stream" (updated body))) "stream" (updated body) refl))
      ∙ streams)

none_raised :
    (a b c : Bool)
    → raise_if (a || (not b || c)) value_error ≡ ok tt
    → (a ≡ false) × (b ≡ true) × (c ≡ false)
none_raised a b c h = ground arith

check_study-IsFixed : (body sent : Fields) → check_study body ≡ ok sent → IsFixed sent
check_study-IsFixed body sent h =
    let (valid, rest) = >>-ok (validate (dict body)) _ sent h in
    let (guarded, same) =
      >>-ok
        (raise_if
          (over_limit (get "max_completion_tokens" body)
            || (not (is_fixed (get "messages" body)) || truthy (get "tools" body)))
          value_error)
        _ sent rest in
    let (few, fixed, bare) =
      none_raised (over_limit (get "max_completion_tokens" body)) (is_fixed (get "messages" body))
        (truthy (get "tools" body)) guarded in
    let (n, limit, low, high, model, allowed, tools, listed, inert) =
      validate-IsBounded body valid in
    let (m, single, prompt) = is_fixed-IsPrompt (get "messages" body) fixed in
    subst IsFixed (ok-inj (settled body) sent same) (record {
      limit = n;
      limited = get-settled "max_completion_tokens" body refl refl refl ∙ limit;
      positive = low;
      bounded = within_limit (get "max_completion_tokens" body) n limit few;
      model = get-settled "model" body refl refl refl ∙ model;
      message = m;
      single = get-settled "messages" body refl refl refl ∙ single;
      prompt = prompt;
      no_tools = ap truthy (get-settled "tools" body refl refl refl) ∙ bare;
      no_store = settled-store body;
      default_tier = settled-service_tier body;
      reports = settled-include_usage body;
    })

check_keyed-IsFixed : (keyed : Keyed) (sent : Fields) → check_keyed keyed ≡ ok sent → IsFixed sent
check_keyed-IsFixed (odd, fs) sent h =
    let (body, renamed, rest) = >>=-ok (rename_limit fs) _ sent h in
    check_study-IsFixed body sent (>>-ok (raise_if odd value_error) (check_study body) sent rest).1

-- Of any JSON value, what `checked_body` lets through is the fixed prompt to the fixed model, with
-- between one and 512 output tokens, without tools and storage, in the default tier, and it asks for
-- the usage where it streams.
pub checked_body-IsFixed :
    (value : Value) (sent : Fields) → checked_body value ≡ ok sent → IsFixed sent
unfolding checked_body
checked_body-IsFixed value sent h =
    let (keyed, read, rest) = >>=-ok (dict_of value) check_keyed sent h in
    check_keyed-IsFixed keyed sent rest
