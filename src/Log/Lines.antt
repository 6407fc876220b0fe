-- ===== src/Log/Lines.antt =====
-- The text of a log is a sequence of lines, one for each event.
use witseal.Prelude.{
  ◌≡◌, refl, ap, sym, ◌∙◌, false, not, List, [], ◌∷◌, ◌++◌, map, keep, append_assoc, append-nil,
  arith,
}
use witseal.Prelude.Text.{Text, split, is_blank}
use witseal.Json.Stringify.{stringify, stringify-OneLine, OneLine}
use witseal.Schema.Witness.{WitnessEvent, event_value}
use witseal.Schema.Witness.Plain.{event-IsPlain}
use witseal.Log.{lines, newline}
use witseal.Log.Methods.{event_line}

abbrev pub event_text : WitnessEvent → Text
event_text e = stringify (event_value e)

-- The content of a log that holds these events.
abbrev pub log_text : List WitnessEvent → Text
log_text [] = []
log_text (e ∷ es) = event_line e ++ log_text es

pub log_text-append : (es fs : List WitnessEvent) → log_text (es ++ fs) ≡ log_text es ++ log_text fs
log_text-append [] fs = refl
log_text-append (e ∷ es) fs =
    ap (λ t. event_line e ++ t) (log_text-append es fs)
    ∙ sym (append_assoc (event_line e) (log_text es) (log_text fs))

pub event_text-OneLine : (e : WitnessEvent) → OneLine (event_text e)
event_text-OneLine e = stringify-OneLine (event_value e) (event-IsPlain e)

pub event_text-not_blank : (e : WitnessEvent) → is_blank (event_text e) ≡ false
unfolding event_value stringify is_blank
event_text-not_blank e = refl

-- A part without the separator becomes one part.
split-part :
    (l rest : Text) → OneLine l → split newline (l ++ newline ∷ rest) ≡ l ∷ split newline rest
unfolding split
split-part [] rest h = refl
split-part (c ∷ l) rest h = rw (split-part l rest h.1) (ground arith)

split-last : (l : Text) → OneLine l → split newline l ≡ l ∷ []
unfolding split
split-last [] h = refl
split-last (c ∷ l) h = rw (split-last l h.1) (ground arith)

pub event_line_assoc :
    (e : WitnessEvent) (t : Text) → event_line e ++ t ≡ event_text e ++ newline ∷ t
event_line_assoc e t = append_assoc (event_text e) (newline ∷ []) t

pub split-log_text :
    (es : List WitnessEvent) (torn : Text)
    → OneLine torn
    → split newline (log_text es ++ torn) ≡ map event_text es ++ torn ∷ []
split-log_text [] torn h = split-last torn h
split-log_text (e ∷ es) torn h =
    ap (split newline)
      (append_assoc (event_line e) (log_text es) torn ∙ event_line_assoc e (log_text es ++ torn))
    ∙ split-part (event_text e) (log_text es ++ torn) (event_text-OneLine e)
    ∙ ap (λ ls. event_text e ∷ ls) (split-log_text es torn h)

keep-events :
    (es : List WitnessEvent)
    → keep (λ l. not (is_blank l)) (map event_text es ++ [] ∷ []) ≡ map event_text es
unfolding is_blank stringify event_value
keep-events [] = refl
keep-events (e ∷ es) = rw (event_text-not_blank e) (ap (λ ls. event_text e ∷ ls) (keep-events es))

-- The lines of a log that ends in a newline are the texts of its events.
pub lines-log_text : (es : List WitnessEvent) → lines (log_text es) ≡ map event_text es
unfolding lines
lines-log_text es =
    ap (λ ls. keep (λ l. not (is_blank l)) ls)
      (ap (split newline) (sym (append-nil (log_text es))) ∙ split-log_text es [] tt)
    ∙ keep-events es
