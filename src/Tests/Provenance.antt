-- ===== src/Tests/Provenance.antt =====
-- Captures of provider usage (usage_provenance.py).
use otelcol_genai_sketches.Base.{ℕ, [], ◌∷◌, Option, none, some, ◌≡◌, refl}
use otelcol_genai_sketches.Base.Errors.{ok, ◌>>=◌}
use otelcol_genai_sketches.Json.{Value, str, nat, object, get}
use otelcol_genai_sketches.UsageProvenance.{
  ProviderUsage, capture, Sources, attribute_sources, subset_values, as_dict,
}
use otelcol_genai_sketches.UsageProvenance.Laws.{
  IsCaptured, capture-IsCaptured, IsHonest, provenance-IsHonest, Backed, subset_values-Backed,
}

abbrev raw : Value
raw = object (
    ("prompt_tokens", nat 100)
    ∷ ("completion_tokens", str "many")
    ∷ ("prompt_tokens_details", object (("cached_tokens", nat 64) ∷ []))
    ∷ [])

abbrev emitted : Value
emitted = object (("prompt_tokens", nat 100) ∷ ("completion_tokens", nat 20) ∷ [])

capture-IsCaptured_example : (u : ProviderUsage) × (capture raw ≡ ok u) × IsCaptured raw u
capture-IsCaptured_example = capture-IsCaptured raw

provenance-IsHonest_example :
    (s : Sources) × ((capture raw >>= λ u. attribute_sources u emitted ("output" ∷ [])) ≡ ok s)
    × IsHonest raw emitted ("output" ∷ []) s
provenance-IsHonest_example = provenance-IsHonest raw emitted ("output" ∷ []) refl

subset_values-Backed_example :
    (v : Option ℕ × Option ℕ) × ((capture raw >>= λ u. subset_values u emitted) ≡ ok v)
    × Backed v.0 (get "prompt_tokens" (as_dict emitted))
    × Backed v.1 (get "completion_tokens" (as_dict emitted))
subset_values-Backed_example = subset_values-Backed raw emitted

cached_run : (capture raw >>= λ u. subset_values u emitted) ≡ ok (some 64, none)
unfolding capture subset_values
cached_run = refl
