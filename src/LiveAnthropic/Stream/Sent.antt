-- ===== src/LiveAnthropic/Stream/Sent.antt =====
-- examples/gateway-accounting/live_anthropic.py: what `forward_stream` writes to the client.
use otelcol_genai_sketches.Base.{
  ℕ, String, true, false, List, [], ◌∷◌, ◌++◌, Option, ◌≡◌, refl, arith, map, ◌⊎◌, inl, inr, ◌∙◌,
  ap, sym,
}
use mathlib.Core.List.{append_assoc, append-nil}
use otelcol_genai_sketches.Json.{Fields}
use otelcol_genai_sketches.LiveAnthropic.{LiveServer}
use otelcol_genai_sketches.LiveAnthropic.Stream.{
  Stream, Outcome, going, returned, raised, rewritten, round, run_frames, opening, forward_stream,
  read_event, inject_cut, write_frame, then_do, finish,
}

-- The local state that an outcome ends with.
abbrev pub ended : Outcome → Stream
ended (going st) = st
ended (returned st) = st
ended (raised e st) = st

-- A frame is written once and the loop goes on uncut, or nothing is written.
abbrev Sends : String → Fields → Stream → Outcome → Type 0
Sends case v st (going st') =
    ((st.cut ≡ false) × (st'.cut ≡ false) × (st'.sent ≡ st.sent ++ rewritten case v ∷ []))
    ⊎ ((st'.cut ≡ true) × (st'.sent ≡ st.sent))
Sends case v st (returned st') = st'.sent ≡ st.sent
Sends case v st (raised e st') = st'.sent ≡ st.sent

-- Reading an event writes nothing.
abbrev Silent : Stream → Outcome → Type 0
Silent st o = ((ended o).sent ≡ st.sent) × ((ended o).cut ≡ st.cut)

read_event-Silent :
    (attempt : ℕ) (case : String) (ca : ℕ) (st : Stream) (v : Fields)
    → Silent st (read_event attempt case ca st v)
unfolding read_event
read_event-Silent attempt case ca st v = ground arith

abbrev Cuts : Stream → Outcome → Type 0
Cuts st (going st') = (st'.sent ≡ st.sent) × ((st'.cut ≡ st.cut) ⊎ (st'.cut ≡ true))
Cuts st (returned st') = st'.sent ≡ st.sent
Cuts st (raised e st') = st'.sent ≡ st.sent

inject_cut-Cuts : (case : String) (ca : ℕ) (st : Stream) → Cuts st (inject_cut case ca st)
unfolding inject_cut
inject_cut-Cuts case ca st = ground arith

write_frame-Sends :
    (case : String) (ca : ℕ) (st : Stream) (v : Fields) → Sends case v st (write_frame case ca st v)
unfolding write_frame
write_frame-Sends case ca st v = ground arith

Sends-going :
    (case : String) (ca : ℕ) (v : Fields) (st t : Stream) (o : Outcome)
    → t.sent ≡ st.sent
    → (t.cut ≡ st.cut) ⊎ (t.cut ≡ true)
    → Sends case v t o
    → Sends case v st o
Sends-going case ca v st t (going st') e c s = ground arith
Sends-going case ca v st t (returned st') e c s = s ∙ e
Sends-going case ca v st t (raised x st') e c s = s ∙ e

Sends-write :
    (case : String) (ca : ℕ) (v : Fields) (st : Stream) (o : Outcome)
    → Cuts st o
    → Sends case v st (then_do o (λ t. write_frame case ca t v))
Sends-write case ca v st (going t) c =
    Sends-going case ca v st t (write_frame case ca t v) c.0 c.1 (write_frame-Sends case ca t v)
Sends-write case ca v st (returned t) c = c
Sends-write case ca v st (raised e t) c = c

Sends-cut :
    (case : String) (ca : ℕ) (v : Fields) (st : Stream) (o : Outcome)
    → Silent st o
    → Sends case v st
        (then_do o (λ s. then_do (inject_cut case ca s) (λ t. write_frame case ca t v)))
Sends-cut case ca v st (going t) c =
    Sends-going case ca v st t (then_do (inject_cut case ca t) (λ u. write_frame case ca u v)) c.0
      (inl c.1) (Sends-write case ca v t (inject_cut case ca t) (inject_cut-Cuts case ca t))
Sends-cut case ca v st (returned t) c = c.0
Sends-cut case ca v st (raised e t) c = c.0

round-Sends :
    (attempt : ℕ) (case : String) (ca : ℕ) (st : Stream) (v : Fields)
    → Sends case v st (round attempt case ca st v)
unfolding round
round-Sends attempt case ca st v =
    Sends-cut case ca v st (read_event attempt case ca st v)
      (read_event-Silent attempt case ca st v)

-- `o` has sent a beginning of `vs` beyond what `st` had sent.
abbrev SendsPrefix : String → List Fields → Stream → Outcome → Type 0
SendsPrefix case vs st o =
    (p : List Fields) × (rest : List Fields) × ((ended o).sent ≡ st.sent ++ p)
    × (p ++ rest ≡ map (rewritten case) vs)
    × (st.cut ≡ true → p ≡ [])

SendsPrefix-none :
    (case : String) (vs : List Fields) (st : Stream) (o : Outcome)
    → (ended o).sent ≡ st.sent
    → SendsPrefix case vs st o
SendsPrefix-none case vs st o e =
    ([], map (rewritten case) vs, e ∙ sym (append-nil st.sent), refl, λ c. refl)

SendsPrefix-round :
    (case : String) (v : Fields) (vs : List Fields) (st t : Stream) (o : Outcome)
    → Sends case v st (going t)
    → SendsPrefix case vs t o
    → SendsPrefix case (v ∷ vs) st o
SendsPrefix-round case v vs st t o (inl s) (p, rest, e, q, c) = (
  rewritten case v ∷ p,
  rest,
  e ∙ ap (λ x. x ++ p) s.2 ∙ append_assoc st.sent (rewritten case v ∷ []) p,
  ap (λ x. rewritten case v ∷ x) q,
  λ k. cc,
)
SendsPrefix-round case v vs st t o (inr s) (p, rest, e, q, c) =
    SendsPrefix-none case (v ∷ vs) st o
      (e ∙ ap (λ x. t.sent ++ x) (c s.0) ∙ append-nil t.sent ∙ s.1)

module _ (attempt : ℕ) (case : String) (ca : ℕ) where
  SendsPrefix-continue :
      (v : Fields) (vs : List Fields) (st : Stream) (o : Outcome)
      → ((t : Stream) → SendsPrefix case vs t (run_frames attempt case ca vs t))
      → Sends case v st o
      → SendsPrefix case (v ∷ vs) st (then_do o (run_frames attempt case ca vs))
  SendsPrefix-continue v vs st (going t) ih s =
      SendsPrefix-round case v vs st t (run_frames attempt case ca vs t) s (ih t)
  SendsPrefix-continue v vs st (returned t) ih s = SendsPrefix-none case (v ∷ vs) st (returned t) s
  SendsPrefix-continue v vs st (raised e t) ih s = SendsPrefix-none case (v ∷ vs) st (raised e t) s

  run_frames-SendsPrefix :
      (vs : List Fields) (st : Stream) → SendsPrefix case vs st (run_frames attempt case ca vs st)
  unfolding run_frames
  run_frames-SendsPrefix [] st = SendsPrefix-none case [] st (going st) refl
  run_frames-SendsPrefix (v ∷ vs) st =
      SendsPrefix-continue v vs st (round attempt case ca st v) (run_frames-SendsPrefix vs)
        (round-Sends attempt case ca st v)

  ended-finish : (o : Outcome) → (ended (then_do o (finish case ca))).sent ≡ (ended o).sent
  ended-finish (going st) = ground arith
  ended-finish (returned st) = refl
  ended-finish (raised e st) = refl

  -- However the stream ends (by its last frame, an error event, an injected cut, a client that
  -- leaves after any number of writes), what was written to the client is a beginning of the
  -- provider's frames in their order, each unchanged but that in the case `stream_missing` a
  -- `message_delta` has lost its usage.
  pub forward_stream_sends_prefix :
      (frames : List Fields) (s : LiveServer) (accepts : Option ℕ)
      → (rest : List Fields) × ((ended (forward_stream attempt case ca frames s accepts)).sent
            ++ rest
          ≡ map (rewritten case) frames)
  unfolding forward_stream
  forward_stream_sends_prefix frames s accepts =
      let (p, rest, e, q, c) = run_frames-SendsPrefix frames (opening s accepts) in
      (
        rest,
        ap (λ x. x ++ rest)
              (ended-finish (run_frames attempt case ca frames (opening s accepts)) ∙ e)
            ∙ q,
      )
