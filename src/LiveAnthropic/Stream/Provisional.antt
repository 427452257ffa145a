-- ===== src/LiveAnthropic/Stream/Provisional.antt =====
-- examples/gateway-accounting/live_anthropic.py: streams without a final output count, in
-- `forward_stream`.
use otelcol_genai_sketches.Base.{
  ℕ, String, Bool, true, false, List, [], ◌∷◌, if◌then◌else◌, Option, none, some, ◌≡◌, refl, arith,
  inl, inr, ◌∙◌, ap, Bool-cases, ==_iff,
}
use otelcol_genai_sketches.Json.{
  Fields, Value, null, dict, get, get_or, has, pop, update, end, is_text,
}
use otelcol_genai_sketches.Json.Laws.{IsDict, update-IsDict, has-pop, get-missing, pop-IsDict}
use otelcol_genai_sketches.AnthropicProtocol.{completion_cost, budget_used, usage_cost, usage_only}
use otelcol_genai_sketches.Ledger.{known_cost, completed, provider_complete}
use otelcol_genai_sketches.AnthropicProtocol.Budget.{budget_used-unknown}
use otelcol_genai_sketches.Ledger.Rows.{completed-append_complete}
use otelcol_genai_sketches.LiveAnthropic.{LiveServer, observed_usage, append_row, is_empty}
use otelcol_genai_sketches.LiveAnthropic.Stream.{
  Stream, on_start, on_delta, on_stop, Outcome, going, returned, raised, round, run_frames, opening,
  forward_stream, read_event, inject_cut, write_frame, then_do, finish,
}
use otelcol_genai_sketches.LiveAnthropic.Stream.Sent.{ended}

usage_only-no_output :
    (fs : Fields)
    → has "output_tokens" fs ≡ false
    → has "output_tokens" (usage_only (dict fs)) ≡ false
unfolding usage_only
usage_only-no_output fs h = rw (get-missing "output_tokens" null fs h) (ground arith)

-- No cost is known of a usage that lacks an output count.
usage_cost-no_output : (fs : Fields) → has "output_tokens" fs ≡ false → usage_cost (dict fs) ≡ none
unfolding usage_cost
usage_cost-no_output fs h = rw (get-missing "output_tokens" null fs h) (ground arith)

known_cost-no_output :
    (fs : Fields) (m : Value)
    → has "output_tokens" fs ≡ false
    → known_cost completion_cost (some (dict fs, m)) ≡ none
known_cost-no_output fs m h = rw (usage_cost-no_output fs h) (ground arith)

-- A `message_delta` of the frame carries no valid output count.
abbrev pub LacksOutput : Fields → Type 0
LacksOutput v =
    is_text "message_delta" (get "type" v) ≡ true
    → has "output_tokens" (usage_only (get "usage" v)) ≡ false

abbrev pub AllLack : List Fields → Type 0
AllLack [] = Unit {0}
AllLack (v ∷ vs) = LacksOutput v × AllLack vs

-- Nothing that the invariant reads has changed.
abbrev SameMoney : Stream → Stream → Type 0
SameMoney st t =
    (t.final_output ≡ st.final_output)
    × (t.usage ≡ st.usage)
    × (t.server.history ≡ st.server.history)

inject_cut-SameMoney :
    (case : String) (ca : ℕ) (st : Stream) → SameMoney st (ended (inject_cut case ca st))
unfolding inject_cut
inject_cut-SameMoney case ca st = ground arith

write_frame-SameMoney :
    (case : String) (ca : ℕ) (st : Stream) (v : Fields)
    → SameMoney st (ended (write_frame case ca st v))
unfolding write_frame
write_frame-SameMoney case ca st v = ground arith

finish-SameMoney : (case : String) (ca : ℕ) (st : Stream) → SameMoney st (ended (finish case ca st))
finish-SameMoney case ca st = ground arith

module _ (attempt total : ℕ) where
  -- No final output count so far; the ledger's total stands, and no cost of the attempt is known.
  pub record IsProvisional (st : Stream) : Type 0 where
    pub no_final : st.final_output ≡ false
    pub is_dict : IsDict st.usage
    pub held : budget_used st.server.history ≡ total
    pub unknown : known_cost completion_cost (completed attempt st.server.history) ≡ none

  -- The part of the ledger that the invariant reads.
  abbrev IsHeld : LiveServer → Type 0
  IsHeld s =
      (budget_used s.history ≡ total)
      × (known_cost completion_cost (completed attempt s.history) ≡ none)

  observed_usage-provisional :
      (s : LiveServer) (case : String) (ca : ℕ) (usage model : Value)
      → IsHeld s
      → IsHeld (observed_usage s attempt case ca usage model false)
  unfolding observed_usage
  observed_usage-provisional s case ca usage model h =
      elim (Bool-cases (is_empty (usage_only usage))) [
        | inl nothing ↦ rw nothing h
        | inr something ↦ rw something h
      ]

  IsHeld-append :
      (s : LiveServer) (u m : Value)
      → known_cost completion_cost (some (u, m)) ≡ none
      → IsHeld s
      → IsHeld (append_row s (provider_complete attempt u m))
  IsHeld-append s u m now h = (
    budget_used-unknown s.history attempt u m h.1 now ∙ h.0,
    rw (completed-append_complete attempt attempt u m s.history, (==_iff attempt attempt).1 refl)
        now,
  )

  observed_usage-final :
      (s : LiveServer) (case : String) (ca : ℕ) (fs : Fields) (model : Value)
      → has "output_tokens" fs ≡ false
      → IsHeld s
      → IsHeld (observed_usage s attempt case ca (dict fs) model true)
  unfolding observed_usage
  observed_usage-final s case ca fs model missing h =
      elim (Bool-cases (is_empty (usage_only (dict fs)))) [
        | inl nothing ↦ rw nothing h
        | inr something ↦ rw something (
            IsHeld-append s (dict (usage_only (dict fs))) model
              (known_cost-no_output (usage_only (dict fs)) model (usage_only-no_output fs missing))
              h)
      ]

  on_start-IsProvisional :
      (case : String) (ca : ℕ) (st : Stream) (v : Value)
      → IsProvisional st
      → IsProvisional (ended (on_start attempt case ca st v))
  on_start-IsProvisional case ca st (dict message) p =
      let u = update st.usage (usage_only (get "usage" message)) in
      let h =
        observed_usage-provisional st.server case ca (dict u) (get "model" message)
          (p.held, p.unknown) in
      record {
        no_final = p.no_final;
        is_dict = update-IsDict st.usage (usage_only (get "usage" message)) p.is_dict;
        held = h.0;
        unknown = h.1;
      }
  on_start-IsProvisional case ca st _ p = p

  on_delta-IsProvisional :
      (case : String) (ca : ℕ) (st : Stream) (v : Value)
      → has "output_tokens" (usage_only v) ≡ false
      → IsProvisional st
      → IsProvisional (on_delta attempt case ca st v)
  on_delta-IsProvisional case ca st v missing p =
      let u = update st.usage (usage_only v) in
      let h = observed_usage-provisional st.server case ca (dict u) st.model (p.held, p.unknown) in
      record {
        no_final = rw (p.no_final, missing) refl;
        is_dict = update-IsDict st.usage (usage_only v) p.is_dict;
        held = h.0;
        unknown = h.1;
      }

  on_stop-IsProvisional :
      (case : String) (ca : ℕ) (st : Stream)
      → IsProvisional st
      → IsProvisional (on_stop attempt case ca st)
  on_stop-IsProvisional case ca st p =
      let u = pop "output_tokens" st.usage in
      let h =
        observed_usage-final st.server case ca u st.model
          (has-pop "output_tokens" "output_tokens" st.usage p.is_dict) (p.held, p.unknown) in
      rw p.no_final (record {
        no_final = refl;
        is_dict = pop-IsDict "output_tokens" st.usage p.is_dict;
        held = h.0;
        unknown = h.1;
      })

  IsProvisional-if :
      (b : Bool) (o o' : Outcome)
      → (b ≡ true → IsProvisional (ended o))
      → IsProvisional (ended o')
      → IsProvisional (ended (if b then o else o'))
  IsProvisional-if true o o' p q = p refl
  IsProvisional-if false o o' p q = q

  read_event-IsProvisional :
      (case : String) (ca : ℕ) (st : Stream) (v : Fields)
      → LacksOutput v
      → IsProvisional st
      → IsProvisional (ended (read_event attempt case ca st v))
  unfolding read_event
  read_event-IsProvisional case ca st v lacks p =
      IsProvisional-if (is_text "error" (get "type" v)) _ _ (λ _. p)
        (IsProvisional-if (is_text "message_start" (get "type" v)) _ _
          (λ _. on_start-IsProvisional case ca st (get_or "message" (dict end) v) p)
          (IsProvisional-if (is_text "message_delta" (get "type" v)) _ _
            (λ e. on_delta-IsProvisional case ca st (get "usage" v) (lacks e) p)
            (IsProvisional-if (is_text "message_stop" (get "type" v)) _ _
              (λ _. on_stop-IsProvisional case ca st p)
              (IsProvisional-if (is_text "content_block_delta" (get "type" v)) _ _
                (λ _. record {
                  no_final = p.no_final;
                  is_dict = p.is_dict;
                  held = p.held;
                  unknown = p.unknown;
                })
                p))))

  IsProvisional-SameMoney : (st t : Stream) → SameMoney st t → IsProvisional st → IsProvisional t
  IsProvisional-SameMoney st t (f, u, h) p = record {
    no_final = f ∙ p.no_final;
    is_dict = rw u p.is_dict;
    held = rw h p.held;
    unknown = rw h p.unknown;
  }

  IsProvisional-then :
      (o : Outcome) (f : Stream → Outcome)
      → IsProvisional (ended o)
      → ((t : Stream) → IsProvisional t → IsProvisional (ended (f t)))
      → IsProvisional (ended (then_do o f))
  IsProvisional-then (going t) f p k = k t p
  IsProvisional-then (returned t) f p k = p
  IsProvisional-then (raised e t) f p k = p

  round-IsProvisional :
      (case : String) (ca : ℕ) (st : Stream) (v : Fields)
      → LacksOutput v
      → IsProvisional st
      → IsProvisional (ended (round attempt case ca st v))
  unfolding round
  round-IsProvisional case ca st v lacks p =
      IsProvisional-then (read_event attempt case ca st v) _
        (read_event-IsProvisional case ca st v lacks p)
        λ t q.
          IsProvisional-then (inject_cut case ca t) _
            (IsProvisional-SameMoney t _ (inject_cut-SameMoney case ca t) q)
            λ u r. IsProvisional-SameMoney u _ (write_frame-SameMoney case ca u v) r

  run_frames-IsProvisional :
      (case : String) (ca : ℕ) (vs : List Fields) (st : Stream)
      → AllLack vs
      → IsProvisional st
      → IsProvisional (ended (run_frames attempt case ca vs st))
  unfolding run_frames
  run_frames-IsProvisional case ca [] st lacks p = p
  run_frames-IsProvisional case ca (v ∷ vs) st lacks p =
      IsProvisional-then (round attempt case ca st v) (run_frames attempt case ca vs)
        (round-IsProvisional case ca st v lacks.0 p)
        (λ t q. run_frames-IsProvisional case ca vs t lacks.1 q)

-- If no `message_delta` of the stream carries a valid output count, then however the stream ends,
-- with or without a `message_stop`, the ledger's total is what it was before: the attempt keeps its
-- full reserve, and the provisional output count of `message_start` is never charged.
pub forward_stream_keeps_reserve :
    (attempt : ℕ) (case : String) (case_attempt : ℕ) (frames : List Fields) (s : LiveServer)
    (accepts : Option ℕ)
    → AllLack frames
    → completed attempt s.history ≡ none
    → budget_used (ended (forward_stream attempt case case_attempt frames s accepts)).server.history
      ≡ budget_used s.history
unfolding forward_stream
forward_stream_keeps_reserve attempt case case_attempt frames s accepts lacks fresh =
    let start : IsProvisional attempt (budget_used s.history) (opening s accepts) = record {
      no_final = refl;
      is_dict = tt;
      held = refl;
      unknown = ap (known_cost completion_cost) fresh;
    } in
    let o = run_frames attempt case case_attempt frames (opening s accepts) in
    (IsProvisional-then attempt (budget_used s.history) o (finish case case_attempt)
      (run_frames-IsProvisional attempt (budget_used s.history) case case_attempt frames
        (opening s accepts) lacks start)
      (λ t q.
        IsProvisional-SameMoney attempt (budget_used s.history) t _
          (finish-SameMoney case case_attempt t) q)).held
