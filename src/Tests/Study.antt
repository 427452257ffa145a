-- ===== src/Tests/Study.antt =====
-- Runs of the synthetic provider and of the analysis (provider.py, analyze.py).
use otelcol_genai_sketches.Base.{
  ℕ, Bool, true, false, List, [], ◌∷◌, Option, none, some, ◌≡◌, refl, ◌↔◌,
}
use otelcol_genai_sketches.Base.Errors.{ok}
use otelcol_genai_sketches.Json.{nat, dict, Fields, fields, object, get}
use otelcol_genai_sketches.Analyze.Counts.{openai, anthropic, normalize, no_usage, obj, input, at}
use otelcol_genai_sketches.Analyze.Merge.{merge_usage}
use otelcol_genai_sketches.Analyze.Merge.Laws.{Merges, get-merge_usage}
use otelcol_genai_sketches.Analyze.Record.{Record, no_extra}
use otelcol_genai_sketches.Analyze.Surface.{surface}
use otelcol_genai_sketches.Analyze.Surface.Laws.{IsOnly, surface-IsOnly}
use otelcol_genai_sketches.Provider.{stream_standard, missing, retry429, native_usage}
use otelcol_genai_sketches.Provider.Server.{completion}
use otelcol_genai_sketches.Provider.Recovery.{
  fresh, final_of, stream_recovery, whole_recovery, retried, retry_recovery,
}

stream_recovery_example :
    final_of anthropic (completion (λ n. n) (fresh stream_standard) anthropic "m" true true none).0
    ≡ ok (some (normalize (dict (native_usage anthropic stream_standard)) anthropic))
stream_recovery_example = stream_recovery (λ n. n) anthropic stream_standard "m"

whole_recovery_example :
    final_of openai (completion (λ n. n) (fresh missing) openai "m" false false none).0
    ≡ ok (some no_usage)
whole_recovery_example = whole_recovery (λ n. n) openai missing "m" false

retry_recovery_example :
    final_of openai (retried (λ n. n) openai "m" true false)
    ≡ ok (some (normalize (dict (native_usage openai retry429)) openai))
retry_recovery_example = retry_recovery (λ n. n) openai "m" true false

abbrev first_event : Fields
first_event = fields (
    (
      "usage",
      object (
          ("prompt_tokens", nat 9)
          ∷ (
            "prompt_tokens_details",
            object (("cached_tokens", nat 4) ∷ ("audio_tokens", nat 0) ∷ []),
          )
          ∷ []),
    )
    ∷ [])

abbrev details : Fields
details = fields (("cached_tokens", nat 6) ∷ [])

abbrev next_event : Fields
next_event = fields (("usage", object (("prompt_tokens_details", dict details) ∷ [])) ∷ [])

get-merge_usage_example :
    Merges "prompt_tokens_details"
      (obj (get "usage" next_event))
      (get "prompt_tokens_details" (merge_usage (first_event ∷ [])))
      (get "prompt_tokens_details" (merge_usage (first_event ∷ next_event ∷ [])))
get-merge_usage_example =
    get-merge_usage (first_event ∷ []) next_event "prompt_tokens_details" (refl, tt) (refl, tt)

-- The nested count that the second event does not mention is kept.
nested_run :
    get "prompt_tokens_details" (merge_usage (first_event ∷ next_event ∷ []))
    ≡ object (("cached_tokens", nat 6) ∷ ("audio_tokens", nat 0) ∷ [])
unfolding merge_usage
nested_run = refl

abbrev row : Option Bool → ℕ → Record
row selected n = record {
  usage = record { input = some n; output = some 2; cache_read = none };
  cache_creation = none;
  final = some true;
  status = "unknown";
  http_status = none;
  declared_origin = "unknown";
  finish_reasons = [];
  origins = none;
  selected_for_usage = selected;
  extra = no_extra;
}

abbrev rows : List Record
rows = row (some false) 30 ∷ row (some true) 20 ∷ row (some false) 10 ∷ []

surface-IsOnly_example :
    (at input (surface rows "observed" "single_record").usage ≡ some 20)
    ↔ ((r : Record) × IsOnly r rows × (at input r.usage ≡ some 20))
surface-IsOnly_example = surface-IsOnly rows "observed" "single_record" input 20

shown_run : at input (surface rows "observed" "single_record").usage ≡ some 20
unfolding surface
shown_run = refl
