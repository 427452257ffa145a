-- ===== src/Tests/Live.antt =====
-- Runs of the live relay's spend guard and stream (live_anthropic.py).
use otelcol_genai_sketches.Base.{true, List, [], ◌∷◌, ◌++◌, none, some, ◌≡◌, refl, arith, map}
use otelcol_genai_sketches.Json.{Value, str, nat, Fields, fields, object}
use otelcol_genai_sketches.AnthropicProtocol.{model_name, budget_used, usage_cost, usage_only}
use otelcol_genai_sketches.Ledger.{completed, charge, used_by}
use otelcol_genai_sketches.Ledger.{reserved_count}
use otelcol_genai_sketches.LiveAnthropic.{LiveServer, drain, reserve, observed_usage}
use otelcol_genai_sketches.LiveAnthropic.Guard.{
  Reach, here, next, reserving, completing, IsGuarded, Reach-IsGuarded, Reserves, reserve-Reserves,
}
use otelcol_genai_sketches.LiveAnthropic.Stream.{forward_stream, rewritten}
use otelcol_genai_sketches.LiveAnthropic.Stream.Sent.{ended, forward_stream_sends_prefix}
use otelcol_genai_sketches.LiveAnthropic.Stream.Provisional.{AllLack, forward_stream_keeps_reserve}

-- 0.05 USD and two attempts; a request of 100 bytes reserves 0.02341500 USD.
abbrev start : LiveServer
start = record { budget = 5000000; max_attempts = 2; cut_mode = drain; history = []; records = [] }

abbrev usage : Value
usage = object (("input_tokens", nat 100) ∷ ("output_tokens", nat 20) ∷ [])

abbrev first : LiveServer
first = (reserve start 100).1

abbrev second : LiveServer
second = (reserve (observed_usage first 1 "complete" 1 usage (str model_name) true) 100).1

start-IsGuarded : IsGuarded start
unfolding budget_used reserved_count
start-IsGuarded = record { within_budget = omega arith; within_limit = omega arith; numbered = tt }

guard_run : Reach start second
unfolding reserve reserved_count completed charge usage_cost usage_only budget_used used_by
guard_run =
    next
      (next (next here (reserving start 100)) (
        completing first 1 "complete" 1 usage (str model_name) (omega arith) refl
          ((λ _. omega arith), tt)))
      (reserving (observed_usage first 1 "complete" 1 usage (str model_name) true) 100)

Reach-IsGuarded_example : IsGuarded second
Reach-IsGuarded_example = Reach-IsGuarded start-IsGuarded guard_run

-- The completion has replaced the first reserve by its cost, so a second reserve fits.
second_total : budget_used second.history ≡ 2401500
unfolding reserve observed_usage reserved_count completed charge usage_cost budget_used used_by
second_total = refl

reserve-Reserves_example : Reserves start 100 (reserve start 100)
reserve-Reserves_example = reserve-Reserves start 100 start-IsGuarded

-- A stream whose `message_start` holds a provisional output count, with no count in its delta.
abbrev frames : List Fields
frames =
    fields (
      ("type", str "message_start")
      ∷ (
        "message",
        object (
            ("model", str model_name)
            ∷ ("usage", object (("input_tokens", nat 100) ∷ ("output_tokens", nat 1) ∷ []))
            ∷ []),
      )
      ∷ [])
    ∷ fields (("type", str "message_delta") ∷ ("usage", object []) ∷ [])
    ∷ fields (("type", str "message_stop") ∷ [])
    ∷ []

frames-AllLack : AllLack frames
unfolding usage_only
frames-AllLack = ((λ _. refl), ((λ _. refl), ((λ _. refl), tt)))

first-completed : completed 1 first.history ≡ none
unfolding completed reserve budget_used reserved_count
first-completed = refl

forward_stream_keeps_reserve_example :
    budget_used (ended (forward_stream 1 "complete" 1 frames first none)).server.history
    ≡ budget_used first.history
forward_stream_keeps_reserve_example =
    forward_stream_keeps_reserve 1 "complete" 1 frames first none frames-AllLack first-completed

forward_stream_sends_prefix_example :
    (rest : List Fields) × ((ended (forward_stream 1 "stream_missing" 1 frames first (some 2))).sent
        ++ rest
      ≡ map (rewritten "stream_missing") frames)
forward_stream_sends_prefix_example =
    forward_stream_sends_prefix 1 "stream_missing" 1 frames first (some 2)
