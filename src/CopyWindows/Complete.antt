-- ===== src/CopyWindows/Complete.antt =====
-- deploy/kubernetes/summary-export/copy-windows.py: the windows that the loop keeps.
use otelcol_genai_sketches.Base.{
  ℕ, Bool, true, false, ◌||◌, not, Option, none, some, if◌then◌else◌, ◌≡◌, refl, sym, subst, arith,
  ◌↔◌,
}
use otelcol_genai_sketches.Base.Errors.{Result, ok, ◌>>=◌}
use otelcol_genai_sketches.Base.Errors.Laws.{>>=-ok}
use otelcol_genai_sketches.Json.{
  Value, null, bool, int, real, str, arr, dict, Fields, Double, finite, infinity, not_a_number,
}
use otelcol_genai_sketches.Json.Equality.{value_eq}
use otelcol_genai_sketches.CopyWindows.Numbers.{number, sum, less, same_number, whole}
use otelcol_genai_sketches.CopyWindows.{Member, Entry, lookup, observed, in_time, window}

-- The document of the member is a window that ended by `now`, was emitted by then, lasts longer than
-- nothing, and was observed from its start to its end.
pub record IsComplete (float_add : Value → Value → Result Double) (now : ℕ) (m : Member) (e : Entry)
    : Type 0 where
  pub document : m.document ≡ some (dict e.document)
  pub name : e.name ≡ m.name
  pub content : e.content ≡ m.content
  pub window_start : Value
  pub window_duration : Value
  pub emitted_at : Value
  pub first : Value
  pub last : Value
  pub duration : Double
  pub total : Double
  pub emitted : Double
  pub starts : lookup "window_start_unix_nano" e.document ≡ ok window_start
  pub lasts : lookup "window_duration_unix_nano" e.document ≡ ok window_duration
  pub emits : lookup "emitted_at_unix_nano" e.document ≡ ok emitted_at
  pub from : lookup "observed_start_unix_nano" e.document ≡ ok first
  pub until : lookup "observed_end_unix_nano" e.document ≡ ok last
  pub is_start : number window_start ≡ ok e.start
  pub is_duration : number window_duration ≡ ok duration
  pub is_total : sum float_add window_start window_duration ≡ ok total
  pub is_emitted : number emitted_at ≡ ok emitted
  pub ended : less (whole now) total ≡ false
  pub emitted_by_now : less (whole now) emitted ≡ false
  pub positive : less (whole 0) duration ≡ true
  pub from_start : value_eq (real e.start) first ≡ true
  pub until_end : value_eq (real total) last ≡ true

then_some :
    (b : Bool) (r : Result (Option Entry)) (e : Entry)
    → (if b then r else ok none) ≡ ok (some e)
    → (b ≡ true) × (r ≡ ok (some e))
then_some true r e h = (refl, h)
then_some false r e h = cc

else_some :
    (b : Bool) (r : Result (Option Entry)) (e : Entry)
    → (if b then ok none else r) ≡ ok (some e)
    → (b ≡ false) × (r ≡ ok (some e))
else_some true r e h = cc
else_some false r e h = (refl, h)

kept_entry :
    (b : Bool) (x e : Entry) → ok (if b then some x else none) ≡ ok (some e) → (b ≡ true) × (x ≡ e)
kept_entry true x e h = (refl, cc)
kept_entry false x e h = cc

timely_and_long : (a b : Bool) → (a || not b) ≡ false → (a ≡ false) × (b ≡ true)
timely_and_long a b h = (ground arith, ground arith)

abbrev entry_of : Member → Fields → Double → Entry
entry_of m fs start = record { name = m.name; content = m.content; start = start; document = fs }

-- What the comparison of the observed interval has passed.
abbrev Observed : Member → Fields → Double → Double → Entry → Type 0
Observed m fs start total e =
    (first last : Value) × (lookup "observed_start_unix_nano" fs ≡ ok first)
    × (lookup "observed_end_unix_nano" fs ≡ ok last)
    × (value_eq (real start) first ≡ true)
    × (value_eq (real total) last ≡ true)
    × (entry_of m fs start ≡ e)

observed-Observed :
    (m : Member) (fs : Fields) (start total : Double) (e : Entry)
    → observed m fs start total ≡ ok (some e)
    → Observed m fs start total e
observed-Observed m fs start total e h =
    let (first, looked, compared) = >>=-ok (lookup "observed_start_unix_nano" fs) _ (some e) h in
    let (same_start, looked_last) = then_some (value_eq (real start) first) _ e compared in
    let (last, found, kept) = >>=-ok (lookup "observed_end_unix_nano" fs) _ (some e) looked_last in
    let (same_end, same) = kept_entry (value_eq (real total) last) (entry_of m fs start) e kept in
    (first, last, looked, found, same_start, same_end, same)

abbrev InTime : ℕ → Member → Fields → Double → Double → Double → Entry → Type 0
InTime now m fs start duration total e =
    (emitted_at : Value) × (emitted : Double) × (lookup "emitted_at_unix_nano" fs ≡ ok emitted_at)
    × (number emitted_at ≡ ok emitted)
    × (less (whole now) total ≡ false)
    × (less (whole now) emitted ≡ false)
    × (less (whole 0) duration ≡ true)
    × Observed m fs start total e

in_time-InTime :
    (now : ℕ) (m : Member) (fs : Fields) (start duration total : Double) (e : Entry)
    → in_time now m fs start duration total ≡ ok (some e)
    → InTime now m fs start duration total e
in_time-InTime now m fs start duration total e h =
    let (past, looked) = else_some (less (whole now) total) _ e h in
    let (emitted, counted, rest) =
      >>=-ok (lookup "emitted_at_unix_nano" fs >>= number) _ (some e) looked in
    let (value, found, same) = >>=-ok (lookup "emitted_at_unix_nano" fs) number emitted counted in
    let (timely, seen) =
      else_some (less (whole now) emitted || not (less (whole 0) duration)) _ e rest in
    let (sent, positive) =
      timely_and_long (less (whole now) emitted) (less (whole 0) duration) timely in
    (value, emitted, found, same, past, sent, positive, observed-Observed m fs start total e seen)

module _ (float_add : Value → Value → Result Double) (now : ℕ) where
  complete :
      (m : Member) (fs : Fields) (e : Entry) (first length : Value) (start duration total : Double)
      → m.document ≡ some (dict fs)
      → lookup "window_start_unix_nano" fs ≡ ok first
      → lookup "window_duration_unix_nano" fs ≡ ok length
      → number first ≡ ok start
      → number length ≡ ok duration
      → sum float_add first length ≡ ok total
      → InTime now m fs start duration total e
      → IsComplete float_add now m e
  complete m fs e first length start duration total parsed starts lasts is_start is_duration
        is_total
        (
          emitted_at,
          emitted,
          emits,
          is_emitted,
          ended,
          sent,
          positive,
          (seen_first, seen_last, from, until, from_start, until_end, same),
        ) =
      subst (IsComplete float_add now m) same (record {
        document = parsed;
        name = refl;
        content = refl;
        window_start = first;
        window_duration = length;
        emitted_at = emitted_at;
        first = seen_first;
        last = seen_last;
        duration = duration;
        total = total;
        emitted = emitted;
        starts = starts;
        lasts = lasts;
        emits = emits;
        from = from;
        until = until;
        is_start = is_start;
        is_duration = is_duration;
        is_total = is_total;
        is_emitted = is_emitted;
        ended = ended;
        emitted_by_now = sent;
        positive = positive;
        from_start = from_start;
        until_end = until_end;
      })

  window_dict :
      (m : Member) (fs : Fields) (e : Entry)
      → m.document ≡ some (dict fs)
      → window float_add now m (some (dict fs)) ≡ ok (some e)
      → IsComplete float_add now m e
  unfolding window
  window_dict m fs e parsed h =
      let (first, starts, h₁) = >>=-ok (lookup "window_start_unix_nano" fs) _ (some e) h in
      let (length, lasts, h₂) = >>=-ok (lookup "window_duration_unix_nano" fs) _ (some e) h₁ in
      let (start, is_start, h₃) = >>=-ok (number first) _ (some e) h₂ in
      let (duration, is_duration, h₄) = >>=-ok (number length) _ (some e) h₃ in
      let (total, is_total, h₅) = >>=-ok (sum float_add first length) _ (some e) h₄ in
      complete m fs e first length start duration total parsed starts lasts is_start is_duration
        is_total (in_time-InTime now m fs start duration total e h₅)

  window-IsComplete :
      (m : Member) (e : Entry) (document : Option Value)
      → m.document ≡ document
      → window float_add now m document ≡ ok (some e)
      → IsComplete float_add now m e
  unfolding window
  window-IsComplete m e (some (dict fs)) parsed h = window_dict m fs e parsed h
  window-IsComplete m e none parsed h = cc
  window-IsComplete m e (some null) parsed h = cc
  window-IsComplete m e (some (bool b)) parsed h = cc
  window-IsComplete m e (some (int n)) parsed h = cc
  window-IsComplete m e (some (real x)) parsed h = cc
  window-IsComplete m e (some (str s)) parsed h = cc
  window-IsComplete m e (some (arr vs)) parsed h = cc

  IsComplete-window :
      (m : Member) (e : Entry)
      → IsComplete float_add now m e
      → window float_add now m m.document ≡ ok (some e)
  unfolding window
  IsComplete-window m e c =
      let sent : (less (whole now) c.emitted || not (less (whole 0) c.duration)) ≡ false =
        rw c.emitted_by_now (rw c.positive refl) in
      rw c.document (
        rw c.starts (
          rw c.lasts (
            rw c.is_start (
              rw c.is_duration (
                rw c.is_total (
                  rw c.ended (
                    rw c.emits (
                      rw c.is_emitted (
                        rw sent (
                          rw c.from (
                            rw c.from_start (
                              rw c.until
                                (rw c.until_end (rw (sym c.name, sym c.content) refl))))))))))))))

-- The loop keeps a member as a window exactly if its document says that the window ended and was
-- emitted by now, lasts longer than nothing, and was observed from its start to its end. The times may
-- be any numbers; a sum with a float is the parameter's.
pub window_iff :
    (float_add : Value → Value → Result Double) (now : ℕ) (m : Member) (e : Entry)
    → (window float_add now m m.document ≡ ok (some e)) ↔ IsComplete float_add now m e
window_iff float_add now m e =
    (window-IsComplete float_add now m e m.document refl, IsComplete-window float_add now m e)

equal_itself : (x : Double) (v : Value) → value_eq (real x) v ≡ true → same_number x x ≡ true
unfolding value_eq
equal_itself (finite false m e) v h = ground arith
equal_itself (finite true m e) v h = ground arith
equal_itself (infinity true) v h = refl
equal_itself (infinity false) v h = refl
equal_itself not_a_number v h = cc

-- The start of a window that is kept is no NaN.
pub window_start-same_number :
    (float_add : Value → Value → Result Double) (now : ℕ) (m : Member) (e : Entry)
    → window float_add now m m.document ≡ ok (some e)
    → same_number e.start e.start ≡ true
window_start-same_number float_add now m e h =
    let c = window-IsComplete float_add now m e m.document refl h in
    equal_itself e.start c.first c.from_start
