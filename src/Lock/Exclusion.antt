-- ===== src/Lock/Exclusion.antt =====
-- Two processes do not hold the lock together, where no stale verdict is acted on.
use witseal.Prelude.{ℕ, ◌≡◌, ◌≢◌, ◌⊎◌, inl, inr, refl, sym, ◌∙◌, true, false, some, arith}
use witseal.Lock.System.{
  created, holding, judged, System, Step, begin, open_new, write_new, read_holder, judge, retry,
  steal, give_up, give_up_looked, exit, release, crash, start, Reach, initial, later, Holds,
}

-- The file of a process that runs and has made it is at the path, written once the process holds.
pub record Inv (s : System) : Type 0 where
  pub making :
      (j : ℕ)
      → s.alive j ≡ true
      → s.pc j ≡ created
      → s.file ≡ some (record { owner = j; written = false })
  pub held :
      (j : ℕ)
      → s.alive j ≡ true
      → s.pc j ≡ holding
      → s.file ≡ some (record { owner = j; written = true })

Step-Inv : {s t : System} → Step true s t → Inv s → Inv t
Step-Inv (begin i a p) inv = record {
  making = λ j. ground (arith, inv.making j);
  held = λ j. ground (arith, inv.held j);
}
Step-Inv (open_new i a p n) inv = record {
  making = λ j. ground (arith, inv.making j, inv.held j);
  held = λ j. ground (arith, inv.making j, inv.held j);
}
Step-Inv (write_new i a p) inv = record {
  making = λ j. ground (arith, inv.making j, inv.making i);
  held = λ j. ground (arith, inv.held j, inv.making i);
}
Step-Inv (read_holder i f a p e w) inv = record {
  making = λ j. ground (arith, inv.making j);
  held = λ j. ground (arith, inv.held j);
}
Step-Inv (judge i d a p e) inv = record {
  making = λ j. ground (arith, inv.making j);
  held = λ j. ground (arith, inv.held j);
}
Step-Inv (retry i d a p) inv = record {
  making = λ j. ground (arith, inv.making j);
  held = λ j. ground (arith, inv.held j);
}
Step-Inv (give_up_looked i d a p) inv = record {
  making = λ j. ground (arith, inv.making j);
  held = λ j. ground (arith, inv.held j);
}
Step-Inv (exit i a p) inv = record {
  making = λ j. ground (arith, inv.making j);
  held = λ j. ground (arith, inv.held j);
}
Step-Inv (steal i a p q) inv = record {
  making = λ j. ground (arith, inv.making j, q refl);
  held = λ j. ground (arith, inv.held j, q refl);
}
Step-Inv (give_up i a p) inv = record {
  making = λ j. ground (arith, inv.making j);
  held = λ j. ground (arith, inv.held j);
}
Step-Inv (release i a p) inv = record {
  making = λ j. ground (arith, inv.making j, inv.held i);
  held = λ j. ground (arith, inv.held j, inv.held i);
}
Step-Inv (crash i) inv = record {
  making = λ j. ground (arith, inv.making j);
  held = λ j. ground (arith, inv.held j);
}

start-Inv : Inv start
start-Inv = record { making = λ j a p. cc; held = λ j a p. cc }

Reach-Inv : {s : System} → Reach true s → Inv s
Reach-Inv initial = start-Inv
Reach-Inv (later r st) = Step-Inv st (Reach-Inv r)

-- No process has ended.
abbrev pub AllRun : System → Type 0
AllRun s = (i : ℕ) → s.alive i ≡ true

AllRun-before : {s t : System} → Step false s t → AllRun t → AllRun s
AllRun-before (begin i a p) h = h
AllRun-before (open_new i a p n) h = h
AllRun-before (write_new i a p) h = h
AllRun-before (read_holder i f a p e w) h = h
AllRun-before (judge i d a p e) h = h
AllRun-before (retry i d a p) h = h
AllRun-before (give_up_looked i d a p) h = h
AllRun-before (exit i a p) h = λ j. ground (arith, h j)
AllRun-before (steal i a p q) h = h
AllRun-before (give_up i a p) h = h
AllRun-before (release i a p) h = h
AllRun-before (crash i) h = λ j. ground (arith, h j)

NoVerdict : System → Type 0
NoVerdict s = (i : ℕ) → s.pc i ≢ judged

Step-NoVerdict : {s t : System} → Step false s t → AllRun s → NoVerdict s → NoVerdict t
unfolding NoVerdict
Step-NoVerdict (begin i a p) h n = λ j. ground (arith, n j)
Step-NoVerdict (open_new i a p e) h n = λ j. ground (arith, n j)
Step-NoVerdict (write_new i a p) h n = λ j. ground (arith, n j)
Step-NoVerdict (read_holder i f a p e w) h n = λ j. ground (arith, n j)
Step-NoVerdict (judge i d a p e) h n = λ j. ground (arith, n j, h d)
Step-NoVerdict (retry i d a p) h n = λ j. ground (arith, n j)
Step-NoVerdict (give_up_looked i d a p) h n = λ j. ground (arith, n j)
Step-NoVerdict (exit i a p) h n = λ j. n j
Step-NoVerdict (steal i a p q) h n = λ j. ground (arith, n j)
Step-NoVerdict (give_up i a p) h n = λ j. ground (arith, n j)
Step-NoVerdict (release i a p) h n = λ j. ground (arith, n j)
Step-NoVerdict (crash i) h n = λ j. n j

AllRun-NoVerdict : {s : System} → Reach false s → AllRun s → NoVerdict s
unfolding NoVerdict
AllRun-NoVerdict initial h = λ i. cc
AllRun-NoVerdict (later r st) h =
    let before = AllRun-before st h in Step-NoVerdict st before (AllRun-NoVerdict r before)

Step-prompt : {s t : System} → Step false s t → NoVerdict s → Step true s t
unfolding NoVerdict
Step-prompt (begin i a p) n = begin i a p
Step-prompt (open_new i a p e) n = open_new i a p e
Step-prompt (write_new i a p) n = write_new i a p
Step-prompt (read_holder i f a p e w) n = read_holder i f a p e w
Step-prompt (judge i d a p e) n = judge i d a p e
Step-prompt (retry i d a p) n = retry i d a p
Step-prompt (give_up_looked i d a p) n = give_up_looked i d a p
Step-prompt (exit i a p) n = exit i a p
Step-prompt (steal i a p q) n = absurd (n i p)
Step-prompt (give_up i a p) n = give_up i a p
Step-prompt (release i a p) n = release i a p
Step-prompt (crash i) n = crash i

AllRun-prompt : {s : System} → Reach false s → AllRun s → Reach true s
AllRun-prompt initial h = initial
AllRun-prompt (later r st) h =
    let before = AllRun-before st h in
    later (AllRun-prompt r before) (Step-prompt st (AllRun-NoVerdict r before))

-- Two processes that run and hold the lock are one, however the steps of all processes interleave,
-- in each run in which every steal moves a file whose owner is dead or finds none, and in each run in
-- which no process has ended, by a crash or by an exit.
pub mutual_exclusion :
    (s : System)
    → Reach true s ⊎ (Reach false s × AllRun s)
    → (i j : ℕ) → Holds s i
    → Holds s j
    → i ≡ j
mutual_exclusion s (inl r) i j (ai, hi) (aj, hj) =
    let inv = Reach-Inv r in cc (sym (inv.held i ai hi) ∙ inv.held j aj hj)
mutual_exclusion s (inr (r, h)) i j (ai, hi) (aj, hj) =
    let inv = Reach-Inv (AllRun-prompt r h) in cc (sym (inv.held i ai hi) ∙ inv.held j aj hj)
