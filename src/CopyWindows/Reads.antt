-- ===== src/CopyWindows/Reads.antt =====
-- deploy/kubernetes/summary-export/copy-windows.py: the loop over the members of the archive.
use otelcol_genai_sketches.Base.{
  ℕ, ◌+◌, ◌≤◌, String, Bool, true, false, List, [], ◌∷◌, ◌++◌, ◌||◌, not, Option, none, some, ltb,
  one_of, map, ◌≡◌, refl, sym, ap, ◌∙◌, arith, subst,
}
use otelcol_genai_sketches.Base.Errors.{Result, ok, err, value_error}
use otelcol_genai_sketches.Base.Errors.Laws.{>>=-ok, ok-inj, raise_if-ok}
use mathlib.Core.List.{append-nil, append_assoc}
use otelcol_genai_sketches.Json.{Value, Double}
use otelcol_genai_sketches.CopyWindows.Complete.{window_start-same_number}
use otelcol_genai_sketches.CopyWindows.Sorted.{AllNumbers, AllNumbers-append}
use otelcol_genai_sketches.CopyWindows.{
  Member, Entry, Reading, as_list, max_bytes, is_unexpected, window, read_member, read_members,
}

-- The windows that are kept of the members, in their order.
abbrev chosen_of : Result (Option Entry) → List Entry
chosen_of (ok entry) = as_list entry
chosen_of (err e) = []

unfoldable pub chosen : (Value → Value → Result Double) → ℕ → List Member → List Entry
unfolding window
chosen float_add now [] = []
chosen float_add now (m ∷ ms) =
    chosen_of (window float_add now m m.document) ++ chosen float_add now ms

abbrev pub total_size : List Member → ℕ
total_size [] = 0
total_size (m ∷ ms) = m.size + total_size ms

-- Each member is a regular file that was asked for, and is none of the seen ones or of those before it.
abbrev pub Expected : List String → List String → List Member → Type 0
Expected names seen [] = Unit {0}
Expected names seen (m ∷ ms) =
    (m.is_file ≡ true)
    × (one_of m.name names ≡ true)
    × (one_of m.name seen ≡ false)
    × Expected names (seen ++ m.name ∷ []) ms

-- What a loop that ends without an exception has read.
pub record Reads (float_add : Value → Value → Result Double) (now : ℕ) (names : List String)
    (st : Reading) (ms : List Member) (last : Reading) : Type 0 where
  pub expected : Expected names st.seen ms
  pub seen : last.seen ≡ st.seen ++ map (λ m. m.name) ms
  pub size : last.size ≡ st.size + total_size ms
  pub documents : last.documents ≡ st.documents ++ chosen float_add now ms
  pub bounded : st.size ≤ max_bytes → last.size ≤ max_bytes

expected_of :
    (names : List String) (st : Reading) (m : Member)
    → is_unexpected names st m ≡ false
    → (m.is_file ≡ true) × (one_of m.name names ≡ true) × (one_of m.name st.seen ≡ false)
expected_of names st m h = parts m.is_file (one_of m.name names) (one_of m.name st.seen) h
  where
    parts :
        (file listed again : Bool)
        → (not file || (not listed || again)) ≡ false
        → (file ≡ true) × (listed ≡ true) × (again ≡ false)
    parts file listed again h = ground arith

-- One round.
abbrev Stepped :
    (Value → Value → Result Double) → ℕ → List String → Reading → Member → Reading → Type 0
Stepped float_add now names st m next =
    (is_unexpected names st m ≡ false)
    × (st.size + m.size ≤ max_bytes)
    × (next.seen ≡ st.seen ++ m.name ∷ [])
    × (next.size ≡ st.size + m.size)
    × (next.documents ≡ st.documents ++ chosen_of (window float_add now m m.document))

read_member-Stepped :
    (float_add : Value → Value → Result Double) (now : ℕ) (names : List String) (st next : Reading)
    (m : Member)
    → read_member float_add now names st m ≡ ok next
    → Stepped float_add now names st m next
unfolding read_member
read_member-Stepped float_add now names st next m h =
    let (known, after_size) = raise_if-ok (is_unexpected names st m) value_error _ next h in
    let (small, after_window) =
      raise_if-ok (ltb max_bytes (st.size + m.size)) value_error _ next after_size in
    let (entry, read, same) = >>=-ok (window float_add now m m.document) _ next after_window in
    let same_reading = sym (ok-inj _ next same) in
    let fits : st.size + m.size ≤ max_bytes = ground arith in
    let documents =
      ap (λ r. r.documents) same_reading ∙ ap (λ w. st.documents ++ chosen_of w) (sym read) in
    (known, fits, ap (λ r. r.seen) same_reading, ap (λ r. r.size) same_reading, documents)

pub read_members-Reads :
    (float_add : Value → Value → Result Double) (now : ℕ) (names : List String) (st last : Reading)
    (ms : List Member)
    → read_members float_add now names st ms ≡ ok last
    → Reads float_add now names st ms last
unfolding read_members chosen
read_members-Reads float_add now names st last [] h =
    let same = sym (ok-inj st last h) in
    record {
      expected = tt;
      seen = ap (λ r. r.seen) same ∙ sym (append-nil st.seen);
      size = ap (λ r. r.size) same ∙ omega arith;
      documents = ap (λ r. r.documents) same ∙ sym (append-nil st.documents);
      bounded = λ b. subst (λ r. r.size ≤ max_bytes) (sym same) b;
    }
read_members-Reads float_add now names st last (m ∷ ms) h =
    let (next, round, rest) =
      >>=-ok (read_member float_add now names st m) (λ r. read_members float_add now names r ms)
        last h in
    let (known, small, seen, size, documents) =
      read_member-Stepped float_add now names st next m round in
    let later = read_members-Reads float_add now names next last ms rest in
    let (file, listed, fresh) = expected_of names st m known in
    record {
      expected = (file, listed, fresh, subst (λ s. Expected names s ms) seen later.expected);
      seen =
          later.seen
          ∙ ap (λ s. s ++ map (λ m. m.name) ms) seen
          ∙ append_assoc st.seen (m.name ∷ []) (map (λ m. m.name) ms);
      size = later.size ∙ ap (λ n. n + total_size ms) size ∙ omega arith;
      documents =
          later.documents
          ∙ ap (λ d. d ++ chosen float_add now ms) documents
          ∙ append_assoc st.documents (chosen_of (window float_add now m m.document))
              (chosen float_add now ms);
      bounded = λ b. later.bounded (subst (λ n. n ≤ max_bytes) (sym size) small);
    }

as_list-AllNumbers :
    (float_add : Value → Value → Result Double) (now : ℕ) (m : Member)
    (result : Result (Option Entry))
    → window float_add now m m.document ≡ result
    → AllNumbers (chosen_of result)
as_list-AllNumbers float_add now m (err e) h = tt
as_list-AllNumbers float_add now m (ok none) h = tt
as_list-AllNumbers float_add now m (ok (some e)) h =
    (window_start-same_number float_add now m e h, tt)

-- The starts of the windows that are kept are numbers.
pub chosen-AllNumbers :
    (float_add : Value → Value → Result Double) (now : ℕ) (ms : List Member)
    → AllNumbers (chosen float_add now ms)
unfolding chosen
chosen-AllNumbers float_add now [] = tt
chosen-AllNumbers float_add now (m ∷ ms) =
    AllNumbers-append (chosen_of (window float_add now m m.document)) (chosen float_add now ms)
      (as_list-AllNumbers float_add now m (window float_add now m m.document) refl)
      (chosen-AllNumbers float_add now ms)
