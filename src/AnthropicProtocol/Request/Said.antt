-- ===== src/AnthropicProtocol/Request/Said.antt =====
-- examples/gateway-accounting/anthropic_protocol.py: lemmas on the texts of the messages in
-- `checked_body`.
use otelcol_genai_sketches.Json.Laws.{is_text_str}
use otelcol_genai_sketches.Base.{
  and_both, String, Bool, true, false, List, [], ◌∷◌, ◌++◌, ◌||◌, ◌&&◌, not, if◌then◌else◌, Option,
  none, some, map, ◌≡◌, refl, sym, ap, ◌∙◌, arith, Option-cases, inl, inr, ◌↔◌,
}
use otelcol_genai_sketches.Base.Errors.{ok, value_error, raise_if, ◌>>=◌}
use otelcol_genai_sketches.Base.Errors.Laws.{ok-inj, >>=-ok, raise_if-ok, raise_if-passed}
use otelcol_genai_sketches.Json.{
  Value, null, bool, int, real, str, dict, arr, Fields, nil, cons, array, items, has, get, is_text,
}
use otelcol_genai_sketches.Analyze.Counts.{obj}
use otelcol_genai_sketches.AnthropicProtocol.Request.{
  prompt, is_cache_case, cache_prefix, content_of, cache_content, cache_block, text_block,
}
use otelcol_genai_sketches.AnthropicProtocol.Request.Check.{
  check_messages, cache_messages, plain_message, user_blocks, blocks_of, messages_of, dicts,
  all_wanted, is_wanted, is_prompt, is_texts, keys_are, keys_within, is_hint, is_user,
}

-- The texts that a message says: those of its blocks, or its content.
abbrev said_block : Value → Value
said_block b = get "text" (obj b)

abbrev pub said_content : Value → List Value
said_content (arr vs) = map said_block (items vs)
said_content v = v ∷ []

abbrev pub said_by : List Value → List Value
said_by [] = []
said_by (m ∷ ms) = said_content (get "content" (obj m)) ++ said_by ms

abbrev pub said : Value → List Value
said (arr vs) = said_by (items vs)
said _ = []

-- The third of four conditions.
third : (a b c d : Bool) → (a && b && c && d) ≡ true → c ≡ true
third true true true d h = refl
third true true false d h = cc
third true false c d h = cc
third false b c d h = cc

is_wanted-said : (w : String) (b : Value) → is_wanted w b ≡ true → said_block b ≡ str w
is_wanted-said w (dict fs) h = is_text_str w (get "text" fs) (
    third (keys_within ("type" ∷ "text" ∷ "cache_control" ∷ []) fs) (is_text "text" (get "type" fs))
      (is_text w (get "text" fs)) (not (has "cache_control" fs) || is_hint (get "cache_control" fs))
      h)
is_wanted-said w null h = cc
is_wanted-said w (bool b) h = cc
is_wanted-said w (int n) h = cc
is_wanted-said w (real r) h = cc
is_wanted-said w (arr vs) h = cc
is_wanted-said w (str s) h = cc

all_wanted-said :
    (ws : List String) (bs : List Value) → all_wanted ws bs ≡ true → map said_block bs ≡ map str ws
all_wanted-said [] [] h = refl
all_wanted-said [] (b ∷ bs) h = cc
all_wanted-said (w ∷ ws) [] h = cc
all_wanted-said (w ∷ ws) (b ∷ bs) h =
    let both = and_both (is_wanted w b) (all_wanted ws bs) h in
    rw (is_wanted-said w b both.0, all_wanted-said ws bs both.1) refl

blocks_of-said : (v : Value) → map said_block (blocks_of v) ≡ said_content v
blocks_of-said (arr vs) = refl
blocks_of-said null = refl
blocks_of-said (bool b) = refl
blocks_of-said (int n) = refl
blocks_of-said (real r) = refl
blocks_of-said (str s) = refl
blocks_of-said (dict fs) = refl

some-inj : {A : Type 0} (a b : A) → some a ≡ some b → a ≡ b
some-inj a b h = cc

map-append : {A B : Type 0} (f : A → B) (xs ys : List A) → map f (xs ++ ys) ≡ map f xs ++ map f ys
map-append f [] ys = refl
map-append f (x ∷ xs) ys = ap (λ zs. f x ∷ zs) (map-append f xs ys)

-- What the collected blocks say is what the messages say.
user_blocks-said :
    (ms : List Fields) (bs : List Value)
    → user_blocks ms ≡ ok bs
    → map said_block bs ≡ said_by (map dict ms)
unfolding user_blocks
user_blocks-said [] bs h = ap (map said_block) (sym (ok-inj [] bs h))
user_blocks-said (m ∷ ms) bs h =
    let (_, collected) = raise_if-ok (not (is_user m)) value_error _ bs h in
    let (rest, more, same) =
      >>=-ok (user_blocks ms) (λ rest. ok (blocks_of (get "content" m) ++ rest)) bs collected in
    ap (map said_block) (sym (ok-inj _ bs same))
    ∙ map-append said_block (blocks_of (get "content" m)) rest
    ∙ rw (blocks_of-said (get "content" m), user_blocks-said ms rest more) refl

dicts-cons :
    (fs : Fields) (vs : List Value) (ds : List Fields)
    → dicts vs ≡ some ds
    → dicts (dict fs ∷ vs) ≡ some (fs ∷ ds)
dicts-cons fs vs ds h = rw h refl

no_tail :
    (fs : Fields) (vs : List Value) (ms : List Fields)
    → dicts vs ≡ none
    → dicts (dict fs ∷ vs) ≡ some ms
    → ⊥
no_tail fs vs ms stop h = ground arith

dicts-map : (vs : List Value) (ms : List Fields) → dicts vs ≡ some ms → vs ≡ map dict ms
dicts-map [] ms h = ap (map dict) (some-inj [] ms h)
dicts-map (dict fs ∷ vs) ms h = elim (Option-cases (dicts vs)) [
  | inl stop ↦ absurd (no_tail fs vs ms stop h)
  | inr (ds, more) ↦
      ap (λ ws. dict fs ∷ ws) (dicts-map vs ds more)
      ∙ ap (map dict) (some-inj (fs ∷ ds) ms (sym (dicts-cons fs vs ds more) ∙ h))
]
dicts-map (null ∷ vs) ms h = cc
dicts-map (bool b ∷ vs) ms h = cc
dicts-map (int n ∷ vs) ms h = cc
dicts-map (real r ∷ vs) ms h = cc
dicts-map (arr ws ∷ vs) ms h = cc
dicts-map (str s ∷ vs) ms h = cc

messages_of-said :
    (v : Value) (ms : List Fields) → messages_of v ≡ some ms → said v ≡ said_by (map dict ms)
messages_of-said (arr vs) ms h = ap said_by (dicts-map (items vs) ms (ground arith))
messages_of-said null ms h = cc
messages_of-said (bool b) ms h = cc
messages_of-said (int n) ms h = cc
messages_of-said (real r) ms h = cc
messages_of-said (str s) ms h = cc
messages_of-said (dict fs) ms h = cc

is_texts-prompt :
    (v : Value)
    → is_texts (("type", "text") ∷ ("text", prompt) ∷ []) v ≡ true
    → said_block v ≡ str prompt
is_texts-prompt (dict fs) h =
    is_text_str prompt (get "text" fs) (and_both _ _ (and_both _ _ (and_both _ _ h).1).1).0
is_texts-prompt null h = cc
is_texts-prompt (bool b) h = cc
is_texts-prompt (int n) h = cc
is_texts-prompt (real r) h = cc
is_texts-prompt (arr vs) h = cc
is_texts-prompt (str s) h = cc

or_false : (b : Bool) → ((b || false) ≡ true) ↔ (b ≡ true)
or_false b = ground arith

is_prompt-said : (v : Value) → is_prompt v ≡ true → said_content v ≡ str prompt ∷ []
is_prompt-said (str s) h = ap (λ v. v ∷ []) (is_text_str prompt (str s) h)
is_prompt-said (arr (cons v nil)) h = ap (λ w. w ∷ []) (is_texts-prompt v ((or_false _).0 h))
is_prompt-said (arr nil) h = cc
is_prompt-said (arr (cons v (cons w ws))) h = cc
is_prompt-said null h = cc
is_prompt-said (bool b) h = cc
is_prompt-said (int n) h = cc
is_prompt-said (real r) h = cc
is_prompt-said (dict fs) h = cc

last_of_three : (a b c : Bool) → (a && b && c) ≡ true → c ≡ true
last_of_three true true c h = h
last_of_three true false c h = cc
last_of_three false b c h = cc

plain_message-said :
    (ms : List Fields) → plain_message ms ≡ ok tt → said_by (map dict ms) ≡ str prompt ∷ []
unfolding plain_message
plain_message-said [] h = cc
plain_message-said (m ∷ []) h =
    rw
      (is_prompt-said (get "content" m) (
        last_of_three (keys_are ("role" ∷ "content" ∷ []) m) (is_text "user" (get "role" m))
          (is_prompt (get "content" m)) (raise_if-passed _ value_error h)))
      refl
plain_message-said (m ∷ n ∷ ms) h = cc

cache_messages-said :
    (nonce : Value) (ms : List Fields)
    → cache_messages nonce ms ≡ ok tt
    → (p : String) × (cache_prefix nonce ≡ ok p)
      × (said_by (map dict ms) ≡ str p ∷ str "Reply only OK." ∷ [])
unfolding cache_messages
cache_messages-said nonce ms h =
    let (bs, collected, checked) =
      >>=-ok (user_blocks ms)
        (λ bs. cache_prefix nonce >>= λ prefix.
          raise_if (not (all_wanted (prefix ∷ "Reply only OK." ∷ []) bs)) value_error)
        tt h in
    let (p, prefix, wanted) =
      >>=-ok (cache_prefix nonce)
        (λ prefix. raise_if (not (all_wanted (prefix ∷ "Reply only OK." ∷ []) bs)) value_error) tt
        checked in
    (
      p,
      prefix,
      sym (user_blocks-said ms bs collected)
          ∙ all_wanted-said (p ∷ "Reply only OK." ∷ []) bs
              (raise_if-passed (all_wanted (p ∷ "Reply only OK." ∷ []) bs) value_error wanted),
    )

no_messages :
    (case : String) (nonce : Value) (o : Option (List Fields))
    → o ≡ none
    → check_messages case nonce o ≡ ok tt
    → ⊥
unfolding check_messages
no_messages case nonce none e h = cc
no_messages case nonce (some ms) e h = cc

select_said :
    (cached : Bool) (nonce : Value) (ms : List Fields)
    → (if cached then cache_messages nonce ms else plain_message ms) ≡ ok tt
    → (c : Value) × ((if cached then cache_content (cache_prefix nonce) else ok (str prompt))
        ≡ ok c)
      × (said_by (map dict ms) ≡ said_content c)
select_said true nonce ms h =
    let (p, prefix, says) = cache_messages-said nonce ms h in
    (array (cache_block p ∷ text_block "Reply only OK." ∷ []), ap cache_content prefix, says)
select_said false nonce ms h = (str prompt, refl, plain_message-said ms h)

checked-said :
    (case : String) (nonce : Value) (ms : List Fields)
    → check_messages case nonce (some ms) ≡ ok tt
    → (c : Value) × (content_of case nonce ≡ ok c) × (said_by (map dict ms) ≡ said_content c)
unfolding check_messages content_of
checked-said case nonce ms h = select_said (is_cache_case case) nonce ms h

-- What the messages say is what the content of the fixed request says.
pub check_messages-said :
    (case : String) (nonce v : Value)
    → check_messages case nonce (messages_of v) ≡ ok tt
    → (c : Value) × (content_of case nonce ≡ ok c) × (said v ≡ said_content c)
check_messages-said case nonce v h = elim (Option-cases (messages_of v)) [
  | inl none_there ↦ absurd (no_messages case nonce (messages_of v) none_there h)
  | inr (ms, there) ↦
      let (c, content, same) =
        checked-said case nonce ms (ap (check_messages case nonce) (sym there) ∙ h) in
      (c, content, messages_of-said v ms there ∙ same)
]
