-- ===== src/Lock/Ancestor.antt =====
-- The shortcut for a lock that the process or an ancestor holds: `heldByAncestor` and `isAncestorPid`.
use witseal.Prelude.{
  ℕ, zero, suc, ◌+◌, ◌-◌, ◌*◌, ◌/◌, ◌%◌, ◌<◌, ◌≡◌, ◌≢◌, inl, inr, refl, ap, ◌∙◌, Bool, true, false,
  ◌&&◌, ◌||◌, [], ◌∷◌, ◌++◌, Option, none, some, if◌then◌else◌, Result, ok, err, leb, ltb, ◌==◌,
  arith, All, Bool-cases,
}
use witseal.Prelude.Text.{Text, trim, trim_start}
use witseal.Json.Decimal.{digits, digits_from, IsDigit, digits-IsDigit, digits_from-IsDigit}

abbrev is_digit : ℕ → Bool
is_digit c = leb 48 c && leb c 57

-- The number that the leading digits write, behind the digits read before.
abbrev number_from : ℕ → Text → ℕ
number_from n [] = n
number_from n (c ∷ s) =
    let more = number_from (10 * n + (c - 48)) s in if is_digit c then more else n

abbrev parse_digits : Text → Option ℕ
parse_digits [] = none
parse_digits (c ∷ s) = if is_digit c then some (number_from 0 (c ∷ s)) else none

abbrev signed : ℕ → Text → Option ℕ
signed c s =
    if c == b'-'
    then elim (parse_digits s) [ none ↦ none | some n ↦ some 0 ]
    else if c == b'+'
    then parse_digits s
    else parse_digits (c ∷ s)

abbrev parse_signed : Text → Option ℕ
parse_signed [] = none
parse_signed (c ∷ s) = signed c s

-- `parseInt(s, 10)`, `none` for NaN. A negative number is 0: no process has either.
unfoldable pub parse_pid : Text → Option ℕ
unfolding trim_start
parse_pid s = parse_signed (trim_start s)

-- The process table: what `ps -o ppid=` prints.
module _ (ps_ppid : ℕ → Result Text) where
  abbrev ppid_of : Result Text → Option ℕ
  ppid_of (ok out) = parse_pid (trim out)
  ppid_of (err e) = none

  abbrev pub parent : ℕ → Option ℕ
  parent pid = ppid_of (ps_ppid pid)

  unfoldable pub walk : ℕ → ℕ → ℕ → Bool
  walk zero target pid = false
  walk (suc i) target pid =
      if pid == target then true else if leb pid 1 then false else elim (parent pid) [
        | none ↦ false
        | some ppid ↦ if ppid == pid then false else walk i target ppid
      ]

  -- At most 50 processes are visited.
  unfoldable pub is_ancestor_pid : ℕ → ℕ → Bool
  unfolding walk
  is_ancestor_pid self target = if target == 0 then false else walk 50 target self

  abbrev by_pid : ℕ → Option ℕ → Bool
  by_pid self none = false
  by_pid self (some holder) = holder == self || is_ancestor_pid self holder

  -- On the value of WITSEAL_LOCK_HELD_BY_PID, `none` where it is not set.
  unfoldable pub held_by_ancestor : ℕ → Option Text → Bool
  unfolding parse_pid is_ancestor_pid
  held_by_ancestor self none = false
  held_by_ancestor self (some []) = false
  held_by_ancestor self (some (c ∷ s)) = by_pid self (parse_pid (c ∷ s))

number_from-append :
    (n c : ℕ) (s : Text)
    → All IsDigit s
    → IsDigit c
    → number_from n (s ++ c ∷ []) ≡ 10 * number_from n s + (c - 48)
number_from-append n c [] h (lo, hi) = ground arith
number_from-append n c (d ∷ s) ((lo, hi), h) hc =
    ground (arith, number_from-append (10 * n + (d - 48)) c s h hc)

number_from-digits_from : (f n : ℕ) → n < f → number_from 0 (digits_from f n) ≡ n
unfolding digits_from
number_from-digits_from zero n h = absurd (omega (arith, h))
number_from-digits_from (suc f) n h = elim (Bool-cases (ltb n 10)) [
  | inl small ↦ rw small (ground arith)
  | inr large ↦ rw large (
      number_from-append 0 (48 + n % 10) (digits_from f (n / 10)) (digits_from-IsDigit f (n / 10))
        (omega arith, omega arith)
      ∙ (let shorter : n / 10 < f = ground (arith, h, large) in
          omega (arith, number_from-digits_from f (n / 10) shorter)))
]

snoc-nonempty : (s : Text) (c : ℕ) → s ++ c ∷ [] ≢ []
snoc-nonempty [] c h = cc
snoc-nonempty (d ∷ s) c h = cc

digits-nonempty : (n : ℕ) → digits n ≢ []
unfolding digits digits_from
digits-nonempty n = elim (Bool-cases (ltb n 10)) [
  | inl small ↦ rw small (λ h. cc)
  | inr large ↦ rw large (snoc-nonempty _ _)
]

parse_pid-of_digits : (s : Text) → All IsDigit s → s ≢ [] → parse_pid s ≡ some (number_from 0 s)
unfolding parse_pid trim_start
parse_pid-of_digits [] h e = absurd (e refl)
parse_pid-of_digits (c ∷ s) ((lo, hi), h) e = ground arith

pub parse_pid-digits : (n : ℕ) → parse_pid (digits n) ≡ some n
unfolding digits
parse_pid-digits n =
    parse_pid-of_digits (digits n) (digits-IsDigit n) (digits-nonempty n)
    ∙ ap some (number_from-digits_from (suc n) n (omega arith))

by_entry :
    (ps_ppid : ℕ → Result Text) (self : ℕ) (s : Text)
    → s ≢ []
    → held_by_ancestor ps_ppid self (some s) ≡ by_pid ps_ppid self (parse_pid s)
unfolding held_by_ancestor
by_entry ps_ppid self [] h = absurd (h refl)
by_entry ps_ppid self (c ∷ s) h = refl

-- A process finds that it has the lock itself by its own entry in the environment.
pub held_by_ancestor_self :
    (ps_ppid : ℕ → Result Text) (self : ℕ)
    → held_by_ancestor ps_ppid self (some (digits self)) ≡ true
held_by_ancestor_self ps_ppid self =
    by_entry ps_ppid self (digits self) (digits-nonempty self)
    ∙ rw (parse_pid-digits self) (ground arith)
