-- ===== src/Analyze/Case/Final.antt =====
-- examples/gateway-accounting/analyze.py: when the client's own usage is final, as `analyze_case` decides
-- it.
use otelcol_genai_sketches.Base.{
  ℕ, ◌<◌, ◌^◌, String, Bool, true, false, List, [], ◌∷◌, ◌++◌, ◌||◌, ◌&&◌, not, any, keep, last?,
  Option, none, some, ◌≡◌, refl, sym, ap, ◌∙◌, subst, arith, ◌↔◌, ◌⊎◌, inl, inr, Bool-cases, ltb,
  if◌then◌else◌, eq_iff, and_iff, or_iff, not_iff, str_eq,
}
use otelcol_genai_sketches.Json.{
  Value, null, bool, int, real, str, arr, dict, pos, negsuc, nat, Fields, end, get, get_or, has,
  is_true, is_null, is_text,
}
use otelcol_genai_sketches.Json.Laws.{is_text_str}
use otelcol_genai_sketches.Analyze.Counts.{Protocol, openai, anthropic, obj, count_bound}
use otelcol_genai_sketches.Analyze.Case.{
  counts, is_event, streams, has_output, or_empty, output_event, is_final_output, is_streamed,
  ended_well, client_final,
}

-- The usage of the event has an output count, of any form.
abbrev pub HasOutput : Fields → Type 0
HasOutput e = has "output_tokens" (obj (get "usage" e)) ≡ true

abbrev pub Member : Fields → List Fields → Type 0
Member e [] = ⊥
Member e (x ∷ xs) = (e ≡ x) ⊎ Member e xs

-- The last event of the list with an output count.
abbrev pub IsLastOutput : List Fields → Fields → Type 0
IsLastOutput events e =
    (before after : List Fields) × (events ≡ before ++ e ∷ after)
    × HasOutput e
    × ((f : Fields) → Member f after → ¬ HasOutput f)

-- A `message_delta` of the phase `final`, which an event without a phase has, with a count below 2^63.
abbrev pub IsFinalCount : Fields → Type 0
IsFinalCount e =
    (get "event" e ≡ str "message_delta")
    × ((get_or "phase" (str "final") e ≡ str "final")
        × ((n : ℕ) × (n < 2 ^ 63) × (get "output_tokens" (obj (get "usage" e)) ≡ nat n)))

-- The client saw the end of the response, without a cancellation or an error.
abbrev pub EndedWell : Fields → Type 0
EndedWell value =
    (get "terminal" value ≡ bool true)
    × ((¬ (get "client_cancelled" value ≡ bool true))
        × ((¬ (get "error_present" value ≡ bool true)) × (get "transport_error" value ≡ null)))

-- One text followed by another.
abbrev pub joined_text : String → String → String
joined_text String.[] t = t
joined_text (String.◌∷◌ c s) t = String.◌∷◌ c (joined_text s t)

-- The event names a part of a stream.
abbrev pub IsPart : Fields → Type 0
IsPart e = (get "event" e ≡ str "message_start") ⊎ (get "event" e ≡ str "message_delta")

-- An Anthropic response that was streamed: by the name of the case, or by one of its events.
abbrev pub IsStreamed : Protocol → String → List Fields → Type 0
IsStreamed protocol case events =
    (protocol ≡ anthropic)
    × (((rest : String) × (case ≡ joined_text "stream_" rest))
        ⊎ ((case ≡ "client_disconnect") ⊎ ((e : Fields) × Member e events × IsPart e)))

-- The response ended well, and, where an Anthropic response was streamed, its last output count is a
-- final one.
abbrev pub IsFinal : Protocol → String → Fields → List Fields → Type 0
IsFinal protocol case value events =
    EndedWell value
    × (IsStreamed protocol case events → (e : Fields) × IsLastOutput events e × IsFinalCount e)

is_text_iff : (s : String) (v : Value) → (is_text s v ≡ true) ↔ (v ≡ str s)
is_text_iff s v = (is_text_str s v, λ same. ap (is_text s) same ∙ (eq_iff s s).1 refl)

is_true_iff : (v : Value) → (is_true v ≡ true) ↔ (v ≡ bool true)
is_true_iff v = (true_of v, λ same. ap is_true same)
  where
    true_of : (v : Value) → is_true v ≡ true → v ≡ bool true
    true_of (bool true) h = refl
    true_of (bool false) h = cc
    true_of null h = cc
    true_of (int n) h = cc
    true_of (real x) h = cc
    true_of (str s) h = cc
    true_of (arr vs) h = cc
    true_of (dict fs) h = cc

is_null_iff : (v : Value) → (is_null v ≡ true) ↔ (v ≡ null)
is_null_iff v = (null_of v, λ same. ap is_null same)
  where
    null_of : (v : Value) → is_null v ≡ true → v ≡ null
    null_of null h = refl
    null_of (bool b) h = cc
    null_of (int n) h = cc
    null_of (real x) h = cc
    null_of (str s) h = cc
    null_of (arr vs) h = cc
    null_of (dict fs) h = cc

abbrev is_counted : Option ℕ → Bool
is_counted c = elim c [ none ↦ false | some n ↦ true ]

counts_iff : (v : Value) → (counts v ≡ true) ↔ ((n : ℕ) × (n < 2 ^ 63) × (v ≡ nat n))
counts_iff v = (count_of v, λ (n, small, same). ap counts same ∙ counted n small)
  where
    counted : (n : ℕ) → n < 2 ^ 63 → counts (nat n) ≡ true
    counted n small =
        let fits : ltb n count_bound ≡ true = ground arith in
        ap (λ b. is_counted (if b then some n else none)) fits

    count_of : (v : Value) → counts v ≡ true → (n : ℕ) × (n < 2 ^ 63) × (v ≡ nat n)
    count_of (int (pos n)) h = elim (Bool-cases (ltb n count_bound)) [
      | inl small ↦ (let below : n < 2 ^ 63 = ground arith in (n, below, refl))
      | inr big ↦ (let bad = sym (ap (λ b. is_counted (if b then some n else none)) big) ∙ h in cc)
    ]
    count_of (int (negsuc n)) h = cc
    count_of null h = cc
    count_of (bool b) h = cc
    count_of (real x) h = cc
    count_of (str s) h = cc
    count_of (arr vs) h = cc
    count_of (dict fs) h = cc

ended_well_iff : (value : Fields) → (ended_well value ≡ true) ↔ EndedWell value
ended_well_iff value = and_iff _ _ (is_true_iff (get "terminal" value)) (
    and_iff _ _ (not_iff _ (is_true_iff (get "client_cancelled" value))) (
      and_iff _ _ (not_iff _ (is_true_iff (get "error_present" value)))
        (is_null_iff (get "transport_error" value))))

is_final_output_iff : (e : Fields) → (is_final_output e ≡ true) ↔ IsFinalCount e
is_final_output_iff e = and_iff _ _ (is_text_iff "message_delta" (get "event" e)) (
    and_iff _ _ (is_text_iff "final" (get_or "phase" (str "final") e))
      (counts_iff (get "output_tokens" (obj (get "usage" e)))))

abbrev is_part : Fields → Bool
is_part e = is_event "message_start" e || is_event "message_delta" e

is_part_iff : (e : Fields) → (is_part e ≡ true) ↔ IsPart e
is_part_iff e =
    or_iff _ _ (is_text_iff "message_start" (get "event" e))
      (is_text_iff "message_delta" (get "event" e))

any_member : (es : List Fields) → (any is_part es ≡ true) ↔ ((e : Fields) × Member e es × IsPart e)
any_member [] = ((λ h. cc), λ (e, m, named). absurd m)
any_member (x ∷ xs) = (
  (λ h. elim (Bool-cases (is_part x)) [
    | inl here ↦ (x, inl refl, (is_part_iff x).0 here)
    | inr other ↦
        let (e, m, named) = (any_member xs).0 (sym (ap (λ b. b || any is_part xs) other) ∙ h) in
        (e, inr m, named)
  ]),
  λ (e, m, named). elim m [
    | inl same ↦
        (let here = (is_part_iff x).1 (subst IsPart same named) in
          ap (λ b. b || any is_part xs) here)
    | inr later ↦ (let rest = (any_member xs).1 (e, later, named) in ground arith)
  ],
)

streams_iff :
    (case : String)
    → (streams case ≡ true) ↔ ((rest : String) × (case ≡ joined_text "stream_" rest))
streams_iff case = (begins case, λ (rest, same). ap streams same)
  where
    begins :
        (case : String)
        → streams case ≡ true
        → (rest : String) × (case ≡ joined_text "stream_" rest)
    begins String.[] h = cc
    begins (String.◌∷◌ a String.[]) h = cc
    begins (String.◌∷◌ a (String.◌∷◌ b String.[])) h = cc
    begins (String.◌∷◌ a (String.◌∷◌ b (String.◌∷◌ c String.[]))) h = cc
    begins (String.◌∷◌ a (String.◌∷◌ b (String.◌∷◌ c (String.◌∷◌ d String.[])))) h = cc
    begins (String.◌∷◌ a (String.◌∷◌ b (String.◌∷◌ c (String.◌∷◌ d (String.◌∷◌ e String.[]))))) h =
        cc
    begins
          (String.◌∷◌ a
            (String.◌∷◌ b (String.◌∷◌ c (String.◌∷◌ d (String.◌∷◌ e (String.◌∷◌ f String.[]))))))
          h =
        cc
    begins
          (String.◌∷◌ a (
            String.◌∷◌ b
              (String.◌∷◌ c (String.◌∷◌ d (String.◌∷◌ e (String.◌∷◌ f (String.◌∷◌ g s)))))))
          h =
        (s, ap (λ p. joined_text p s) ((eq_iff _ "stream_").0 h))

is_streamed_iff :
    (protocol : Protocol) (case : String) (events : List Fields)
    → (is_streamed protocol case events ≡ true) ↔ IsStreamed protocol case events
is_streamed_iff openai case events = ((λ h. cc), λ (other, how). cc)
is_streamed_iff anthropic case events =
    let how = or_iff (streams case) _ (streams_iff case) (
      or_iff (str_eq case "client_disconnect") _ (eq_iff case "client_disconnect")
        (any_member events)) in
    ((λ h. (refl, how.0 h)), λ (same, is_how). how.1 is_how)

last?-cons {ℓ} : {A : Type ℓ} (x e : A) (xs : List A) → last? xs ≡ some e → last? (x ∷ xs) ≡ some e
last?-cons x e [] h = cc
last?-cons x e (y ∷ xs) h = h

keep_none : (p : Fields → Bool) (es : List Fields) → any p es ≡ false → keep p es ≡ []
keep_none p [] h = refl
keep_none p (e ∷ es) h = ground (arith, keep_none p es)

last?-keep :
    (p : Fields → Bool) (before : List Fields) (e : Fields) (after : List Fields)
    → p e ≡ true
    → any p after ≡ false
    → last? (keep p (before ++ e ∷ after)) ≡ some e
last?-keep p [] e after here later = rw here (rw (keep_none p after later) refl)
last?-keep p (b ∷ before) e after here later =
    let rest = last?-keep p before e after here later in
    elim (Bool-cases (p b)) [
      | inl kept ↦ rw kept (last?-cons b e (keep p (before ++ e ∷ after)) rest)
      | inr dropped ↦ rw dropped rest
    ]

-- Either no event has an output count, or one is the last that has.
abbrev IsLast : List Fields → Fields → Type 0
IsLast events e =
    (before after : List Fields) × (events ≡ before ++ e ∷ after)
    × (has_output e ≡ true)
    × (any has_output after ≡ false)

output_cases : (es : List Fields) → (any has_output es ≡ false) ⊎ ((e : Fields) × IsLast es e)
output_cases [] = inl refl
output_cases (x ∷ xs) = elim (output_cases xs) [
  | inr (e, (before, after, same, here, later)) ↦
      inr (e, (x ∷ before, after, ap (λ es. x ∷ es) same, here, later))
  | inl free ↦ elim (Bool-cases (has_output x)) [
    | inl here ↦ inr (x, ([], xs, refl, here, free))
    | inr other ↦ inl (ground (arith, free, other))
  ]
]

none_member :
    (es : List Fields) → any has_output es ≡ false → (f : Fields) → Member f es → ¬ HasOutput f
none_member [] h f m = absurd m
none_member (x ∷ xs) h f m = λ seen. elim m [
  | inl same ↦ (let here = sym (ap has_output same) ∙ seen in ground arith)
  | inr later ↦ none_member xs (ground arith) f later seen
]

member_none :
    (es : List Fields) → ((f : Fields) → Member f es → ¬ HasOutput f) → any has_output es ≡ false
member_none [] h = refl
member_none (x ∷ xs) h = elim (Bool-cases (has_output x)) [
  | inl here ↦ absurd (h x (inl refl) here)
  | inr other ↦ rw other (member_none xs (λ f m. h f (inr m)))
]

IsLast-IsLastOutput : (es : List Fields) (e : Fields) → IsLast es e → IsLastOutput es e
IsLast-IsLastOutput es e (before, after, same, here, later) =
    (before, after, same, here, none_member after later)

output_event-IsLastOutput :
    (es : List Fields) (e : Fields) → IsLastOutput es e → output_event es ≡ e
unfolding output_event
output_event-IsLastOutput es e (before, after, same, here, later) =
    ap (λ events. or_empty (last? (keep has_output events))) same
    ∙ ap or_empty (last?-keep has_output before e after here (member_none after later))

output_event_none : (es : List Fields) → any has_output es ≡ false → output_event es ≡ end
unfolding output_event
output_event_none es free = ap (λ events. or_empty (last? events)) (keep_none has_output es free)

none_final : is_final_output end ≡ true → ⊥
none_final h = cc

final_output :
    (es : List Fields)
    → is_final_output (output_event es) ≡ true
    → (e : Fields) × IsLastOutput es e × IsFinalCount e
final_output es h = elim (output_cases es) [
  | inl free ↦ absurd (none_final (sym (ap is_final_output (output_event_none es free)) ∙ h))
  | inr (e, last) ↦
      let is_last = IsLast-IsLastOutput es e last in
      (
        e,
        is_last,
        (is_final_output_iff e).0
            (sym (ap is_final_output (output_event-IsLastOutput es e is_last)) ∙ h),
      )
]

and_or : (a b c : Bool) → (a && (not b || c)) ≡ true → (a ≡ true) × (b ≡ true → c ≡ true)
and_or true true true h = (refl, λ i. refl)
and_or true false c h = (refl, λ i. cc)
and_or true true false h = cc
and_or false b c h = cc

or_and : (a b c : Bool) → a ≡ true → (b ≡ true → c ≡ true) → (a && (not b || c)) ≡ true
or_and a true c ended final = rw (ended, final refl) refl
or_and a false c ended final = rw ended refl

pub client_final_iff :
    (protocol : Protocol) (case : String) (value : Fields) (events : List Fields)
    → (client_final protocol case value events ≡ true) ↔ IsFinal protocol case value events
unfolding client_final
client_final_iff protocol case value events = (
  λ h.
      let (ended, final) =
        and_or (ended_well value) (is_streamed protocol case events)
          (is_final_output (output_event events)) h in
      (
        (ended_well_iff value).0 ended,
        λ streamed. final_output events (final ((is_streamed_iff protocol case events).1 streamed)),
      ),
  λ (ended, final).
      or_and (ended_well value) (is_streamed protocol case events)
        (is_final_output (output_event events)) ((ended_well_iff value).1 ended)
        (λ streamed.
          let (e, last, is_final) = final ((is_streamed_iff protocol case events).0 streamed) in
          ap is_final_output (output_event-IsLastOutput events e last)
          ∙ (is_final_output_iff e).1 is_final),
)
