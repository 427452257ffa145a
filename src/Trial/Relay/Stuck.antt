-- ===== src/Trial/Relay/Stuck.antt =====
-- examples/integrations/litellm/provider-trial/relay.py: `budget_used` and `Handler.handle_post` where
-- the details of a logged usage are no dict.
use otelcol_genai_sketches.Base.{
  ℕ, String, Bool, true, false, [], ◌∷◌, ◌++◌, ◌&&◌, if◌then◌else◌, Option, none, some, ◌==◌, ◌≡◌,
  refl, ap, ◌∙◌,
}
use otelcol_genai_sketches.Base.Errors.{Result, ok, err, attribute_error, ◌>>=◌}
use otelcol_genai_sketches.Json.{
  Value, null, bool, int, real, str, arr, dict, Fields, get, put, nat, truthy, is_text,
}
use otelcol_genai_sketches.Ledger.{History, reserved, provider_complete, completed}
use otelcol_genai_sketches.Trial.{
  usage_cost, cached_of, actual_cost, used_by, budget_used, model_name,
}
use otelcol_genai_sketches.Trial.Validate.{validate}
use otelcol_genai_sketches.Trial.Relay.Stream.{Relay}
use otelcol_genai_sketches.Trial.Relay.{
  Request, Upstream, failed_with, ends, reserve, output_limit, after_reserve, relay_body, checked,
  after_check, is_framed, after_match, handle_post, starts_retry, prior,
}

-- The last completion of a reserved attempt is of the trial's model, and its details are something
-- other than a dict, and not empty.
pub record IsStuck (history : History) : Type 0 where
  pub before : History
  pub after : History
  pub attempt : ℕ
  pub amount : ℕ
  pub usage : Fields
  pub listed : history ≡ before ++ reserved attempt amount ∷ after
  pub completion : completed attempt history ≡ some (dict usage, str model_name)
  pub unreadable : cached_of (get "prompt_tokens_details" usage) ≡ err attribute_error

actual_cost-attribute_error :
    (answer : Option (Value × Value)) (usage : Fields)
    → answer ≡ some (dict usage, str model_name)
    → cached_of (get "prompt_tokens_details" usage) ≡ err attribute_error
    → actual_cost answer ≡ err attribute_error
unfolding actual_cost usage_cost
actual_cost-attribute_error answer usage same unreadable = rw same (rw unreadable refl)

-- A result that is a value or the one exception.
abbrev OnlyAttribute {ℓ} : {A : Type ℓ} → Result A → Type 0
OnlyAttribute (err e) = e ≡ attribute_error
OnlyAttribute (ok value) = Unit {0}

unless_OnlyAttribute :
    (b : Bool) → OnlyAttribute {A = Value} (if b then err attribute_error else ok (nat 0))
unless_OnlyAttribute true = refl
unless_OnlyAttribute false = tt

cached_of-OnlyAttribute : (details : Value) → OnlyAttribute (cached_of details)
cached_of-OnlyAttribute (dict fs) = tt
cached_of-OnlyAttribute null = tt
cached_of-OnlyAttribute (bool b) = unless_OnlyAttribute b
cached_of-OnlyAttribute (int n) = unless_OnlyAttribute (truthy (int n))
cached_of-OnlyAttribute (real x) = unless_OnlyAttribute (truthy (real x))
cached_of-OnlyAttribute (str t) = unless_OnlyAttribute (truthy (str t))
cached_of-OnlyAttribute (arr vs) = unless_OnlyAttribute (truthy (arr vs))

bind_OnlyAttribute {ℓ κ} :
    {A : Type ℓ} {B : Type κ}
    → (x : Result A) (f : A → Result B) → OnlyAttribute x
    → ((value : A) → OnlyAttribute (f value))
    → OnlyAttribute (x >>= f)
bind_OnlyAttribute (err e) f only later = only
bind_OnlyAttribute (ok value) f only later = later value

bind_raises {ℓ κ} :
    {A : Type ℓ} {B : Type κ}
    → (x : Result A) (f : A → Result B) → OnlyAttribute x
    → ((value : A) → f value ≡ err attribute_error)
    → (x >>= f) ≡ err attribute_error
bind_raises (err e) f only later = ap err only
bind_raises (ok value) f only later = later value

if_OnlyAttribute :
    (b : Bool) (r : Result (Option ℕ)) → OnlyAttribute r → OnlyAttribute (if b then r else ok none)
if_OnlyAttribute true r only = only
if_OnlyAttribute false r only = tt

actual_cost-OnlyAttribute : (done : Option (Value × Value)) → OnlyAttribute (actual_cost done)
unfolding actual_cost usage_cost
actual_cost-OnlyAttribute none = tt
actual_cost-OnlyAttribute (some (dict usage, model)) =
    if_OnlyAttribute (is_text model_name model) _ (
      bind_OnlyAttribute (cached_of (get "prompt_tokens_details" usage)) _
        (cached_of-OnlyAttribute (get "prompt_tokens_details" usage)) (λ c. tt))
actual_cost-OnlyAttribute (some (null, model)) = if_OnlyAttribute (is_text model_name model) _ tt
actual_cost-OnlyAttribute (some (bool b, model)) = if_OnlyAttribute (is_text model_name model) _ tt
actual_cost-OnlyAttribute (some (int n, model)) = if_OnlyAttribute (is_text model_name model) _ tt
actual_cost-OnlyAttribute (some (real x, model)) = if_OnlyAttribute (is_text model_name model) _ tt
actual_cost-OnlyAttribute (some (str s, model)) = if_OnlyAttribute (is_text model_name model) _ tt
actual_cost-OnlyAttribute (some (arr vs, model)) = if_OnlyAttribute (is_text model_name model) _ tt

-- The sum reaches the row, or raises before it.
used_by-stuck :
    (all before after : History) (attempt amount : ℕ)
    → actual_cost (completed attempt all) ≡ err attribute_error
    → used_by all (before ++ reserved attempt amount ∷ after) ≡ err attribute_error
unfolding used_by
used_by-stuck all [] after attempt amount raises = rw raises refl
used_by-stuck all (reserved b s ∷ before) after attempt amount raises =
    bind_raises (actual_cost (completed b all)) _ (actual_cost-OnlyAttribute (completed b all))
      (λ cost. rw (used_by-stuck all before after attempt amount raises) refl)
used_by-stuck all (provider_complete b u m ∷ before) after attempt amount raises =
    used_by-stuck all before after attempt amount raises

budget_used-stuck :
    (history : History) → IsStuck history → budget_used history ≡ err attribute_error
unfolding budget_used
budget_used-stuck history stuck =
    ap (used_by history) stuck.listed
    ∙ used_by-stuck history stuck.before stuck.after stuck.attempt stuck.amount (
        actual_cost-attribute_error (completed stuck.attempt history) stuck.usage stuck.completion
          stuck.unreadable)

reserve-stuck :
    (r : Relay) (size tokens : ℕ)
    → IsStuck r.history
    → (r.budget == 0) ≡ false
    → reserve r size tokens ≡ err attribute_error
unfolding reserve
reserve-stuck r size tokens stuck funded = rw funded (rw (budget_used-stuck r.history stuck) refl)

relay_body-stuck :
    (r : Relay) (case : String) (size : ℕ) (body : Fields) (upstream : Fields → Upstream)
    (accepts : Option ℕ) (shutdown : Bool)
    → IsStuck r.history
    → (r.budget == 0) ≡ false
    → (starts_retry case && prior case r == 0) ≡ false
    → relay_body r case size body upstream accepts shutdown
      ≡ ends (failed_with attribute_error) (record r { received = r.received ++ case ∷ [] })
unfolding relay_body
relay_body-stuck r case size body upstream accepts shutdown stuck funded other =
    let received = record r { received = r.received ++ case ∷ [] } in
    rw other (
      ap (after_reserve received case (prior case r == 0) body upstream accepts shutdown)
        (reserve-stuck received size (output_limit body) stuck funded))

-- Where the ledger holds a reserved attempt whose last completion is of the trial's model with details
-- that are something other than a dict and not empty, every framed request with a valid body, other
-- than the injected rejection, ends in an AttributeError without a call of the provider; the relay
-- only counts it as received, so that it stays so.
pub handle_post-stuck :
    (r : Relay) (request : Request) (case : String) (asked : Fields) (upstream : Fields → Upstream)
    (accepts : Option ℕ) (shutdown : Bool)
    → IsStuck r.history
    → (r.budget == 0) ≡ false
    → request.case ≡ some case
    → is_framed case request.size ≡ true
    → request.body ≡ some (dict asked)
    → validate (dict asked) ≡ ok tt
    → (starts_retry case && prior case r == 0) ≡ false
    → handle_post r request upstream accepts shutdown
      ≡ ends (failed_with attribute_error) (record r { received = r.received ++ case ∷ [] })
unfolding handle_post
handle_post-stuck r request case asked upstream accepts shutdown stuck funded named framed sent
      valid other =
    ap (λ c. after_match r c request upstream accepts shutdown) named
    ∙ rw framed (
        ap (λ b. after_check r case request.size upstream accepts shutdown (checked b)) sent
        ∙ rw valid (
            relay_body-stuck r case request.size (put "store" (bool false) asked) upstream accepts
              shutdown stuck funded other))
