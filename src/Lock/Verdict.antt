-- ===== src/Lock/Verdict.antt =====
-- When the holder of a lockfile is held for dead: the verdict fails closed.
use witseal.Prelude.{
  ◌≡◌, ◌≢◌, ◌⊎◌, ◌↔◌, inl, inr, refl, ap, ◌∙◌, true, Option, none, some, Result, ok, err,
  Bool-cases,
}
use witseal.Prelude.Text.{Text, codes, text_eq, text_eq_iff}
use witseal.Json.{
  Value, null, undefined, bool, num, str, arr, obj, unsupported, Number, Fields, get_field,
}
use witseal.Lock.{
  Os, ShimHolder, KillResult, returned, no_such_process, not_permitted, other_error, text_of,
  holder_of, parsed_holder, shim_read_holder, shim_holder_provably_dead, process_start_time,
  dead_by, dead_holder, differs,
}

-- The fields of a holder: the number that is its pid, and what stands for its start time.
abbrev HoldsFields : Fields → Number → Value → Type 0
HoldsFields fs pid start =
    (get_field (codes "pid") fs ≡ num pid) × (get_field (codes "startTime") fs ≡ start)

holder_of-eq :
    (p s : Value) (h : ShimHolder)
    → holder_of p s ≡ some h
    → (p ≡ num h.pid) × (text_of s ≡ h.start_time)
holder_of-eq (num n) s h e =
    let same : record { pid = n; start_time = text_of s } ≡ h = cc in
    (ap (λ k. num k.pid) same, ap (λ k. k.start_time) same)
holder_of-eq null s h e = cc
holder_of-eq undefined s h e = cc
holder_of-eq (bool b) s h e = cc
holder_of-eq (str t) s h e = cc
holder_of-eq (arr vs) s h e = cc
holder_of-eq (obj fs) s h e = cc
holder_of-eq (unsupported t) s h e = cc

parsed_holder-eq :
    (r : Result Value) (h : ShimHolder)
    → parsed_holder r ≡ some h
    → (fs : Fields) × (start : Value) × (r ≡ ok (obj fs))
      × HoldsFields fs h.pid start
      × (text_of start ≡ h.start_time)
parsed_holder-eq (ok (obj fs)) h e =
    let found = holder_of-eq (get_field (codes "pid") fs) (get_field (codes "startTime") fs) h e in
    (fs, get_field (codes "startTime") fs, refl, (found.0, refl), found.1)
parsed_holder-eq (ok null) h e = cc
parsed_holder-eq (ok undefined) h e = cc
parsed_holder-eq (ok (bool b)) h e = cc
parsed_holder-eq (ok (num n)) h e = cc
parsed_holder-eq (ok (str t)) h e = cc
parsed_holder-eq (ok (arr vs)) h e = cc
parsed_holder-eq (ok (unsupported t)) h e = cc
parsed_holder-eq (err t) h e = cc

text_of-eq : (v : Value) (t : Text) → text_of v ≡ some t → v ≡ str t
text_of-eq (str s) t e = cc
text_of-eq null t e = cc
text_of-eq undefined t e = cc
text_of-eq (bool b) t e = cc
text_of-eq (num n) t e = cc
text_of-eq (arr vs) t e = cc
text_of-eq (obj fs) t e = cc
text_of-eq (unsupported s) t e = cc

-- Two texts that are there and differ.
abbrev Differ : Option Text → Option Text → Type 0
Differ a b = (s : Text) × (t : Text) × (a ≡ some s) × (b ≡ some t) × (s ≢ t)

differs-Differ : (a b : Option Text) → differs a b ≡ true → Differ a b
differs-Differ none b h = cc
differs-Differ (some s) none h = cc
differs-Differ (some s) (some t) h =
    (s, t, refl, refl, λ same. let equal = (text_eq_iff s t).1 same in let no = rw equal at h in cc)

Differ-differs : (a b : Option Text) → Differ a b → differs a b ≡ true
Differ-differs a b (s, t, ha, hb, other) =
    rw (ha, hb)
      (elim (Bool-cases (text_eq s t)) [
        | inl same ↦ absurd (other ((text_eq_iff s t).0 same))
        | inr apart ↦ rw apart refl
      ])

module _ (os : Os) where
  -- The file's text is a JSON object with this number as its `pid` and this `startTime`.
  abbrev pub Records : Option Text → Number → Value → Type 0
  Records file pid start =
      (content : Text) × (fs : Fields) × (file ≡ some content)
      × (os.parse_json content ≡ ok (obj fs))
      × HoldsFields fs pid start

  -- The process is missing, or there is one, with a start time that can be read and is not the recorded
  -- text.
  abbrev pub IsGone : Number → Value → Type 0
  IsGone pid start =
      (os.kill pid ≡ no_such_process)
      ⊎ (((os.kill pid ≡ returned) ⊎ (os.kill pid ≡ not_permitted))
          × ((s : Text) × (t : Text) × (process_start_time os pid ≡ some s)
              × (start ≡ str t)
              × (s ≢ t)))

  shim_read_holder-Records :
      (file : Option Text) (h : ShimHolder)
      → shim_read_holder os file ≡ some h
      → (start : Value) × Records file h.pid start × (text_of start ≡ h.start_time)
  unfolding shim_read_holder
  shim_read_holder-Records none h e = cc
  shim_read_holder-Records (some content) h e =
      let (fs, start, parsed, fields, same) = parsed_holder-eq (os.parse_json content) h e in
      (start, (content, fs, refl, parsed, fields), same)

  Records-shim_read_holder :
      (file : Option Text) (pid : Number) (start : Value)
      → Records file pid start
      → shim_read_holder os file ≡ some (record { pid = pid; start_time = text_of start })
  unfolding shim_read_holder
  Records-shim_read_holder file pid start (content, fs, there, parsed, (p, s)) =
      rw (there, parsed, p, s) refl

  dead_by-IsGone :
      (k : KillResult) (h : ShimHolder) (start : Value)
      → os.kill h.pid ≡ k
      → text_of start ≡ h.start_time
      → dead_by os k h ≡ true
      → IsGone h.pid start
  dead_by-IsGone no_such_process h start e same d = inl e
  dead_by-IsGone other_error h start e same d = cc
  dead_by-IsGone returned h start e same d =
      let (s, t, ha, hb, other) = differs-Differ (process_start_time os h.pid) h.start_time d in
      inr (inl e, (s, t, ha, text_of-eq start t (same ∙ hb), other))
  dead_by-IsGone not_permitted h start e same d =
      let (s, t, ha, hb, other) = differs-Differ (process_start_time os h.pid) h.start_time d in
      inr (inr e, (s, t, ha, text_of-eq start t (same ∙ hb), other))

  IsGone-dead_by :
      (pid : Number) (start : Value)
      → IsGone pid start
      → dead_by os (os.kill pid) (record { pid = pid; start_time = text_of start }) ≡ true
  IsGone-dead_by pid start (inl e) = rw e refl
  IsGone-dead_by pid start (inr (inl e, (s, t, ha, hb, other))) =
      rw e (Differ-differs _ _ (s, t, ha, ap text_of hb, other))
  IsGone-dead_by pid start (inr (inr e, (s, t, ha, hb, other))) =
      rw e (Differ-differs _ _ (s, t, ha, ap text_of hb, other))

  -- A holder that the file records, and that is gone.
  abbrev pub RecordsGone : Option Text → Type 0
  RecordsGone file = (pid : Number) × (start : Value) × Records file pid start × IsGone pid start

  dead_holder-RecordsGone :
      (file : Option Text) (o : Option ShimHolder)
      → shim_read_holder os file ≡ o
      → dead_holder os o ≡ true
      → RecordsGone file
  dead_holder-RecordsGone file none e d = cc
  dead_holder-RecordsGone file (some h) e d =
      let (start, recorded, same) = shim_read_holder-Records file h e in
      (h.pid, start, recorded, dead_by-IsGone (os.kill h.pid) h start refl same d)

  -- A lockfile's holder is held for dead exactly if the file can be read, its text is a JSON object whose
  -- `pid` is a number, and signal 0 finds no process with that number, or finds one, be it another
  -- user's, whose start time can be read and is another text than the one that the file records. In
  -- every other case, an unreadable or unparsable file or one without a pid among them, it is not.
  pub shim_holder_provably_dead_iff :
      (file : Option Text) → (shim_holder_provably_dead os file ≡ true) ↔ RecordsGone file
  unfolding shim_holder_provably_dead
  shim_holder_provably_dead_iff file = (
    (λ d. dead_holder-RecordsGone file (shim_read_holder os file) refl d),
    (λ (pid, start, recorded, gone).
        ap (dead_holder os) (Records-shim_read_holder file pid start recorded)
        ∙ IsGone-dead_by pid start gone),
  )
