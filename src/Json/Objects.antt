-- ===== src/Json/Objects.antt =====
-- Objects that are spread and destructured: `{ ...o, k: v }` and `const { k, ...rest } = o`.
use witseal.Prelude.{
  false, ◌≡◌, ◌≢◌, refl, sym, ap, ◌∙◌, if◌then◌else◌, Bool-cases, inl, inr, arith,
}
use witseal.Prelude.Text.{Text, text_eq, text_eq_iff, text_eq_refl}
use witseal.Json.{Value, undefined, obj, Fields, end, field, get_field}
use witseal.Json.Canonical.{canonicalize}
use witseal.Json.Order.{sorted, sorted_field, sorted_swap}

-- The object without a property.
unfoldable pub delete_field : Text → Fields → Fields
delete_field k end = end
delete_field k (field j v fs) =
    let rest = delete_field k fs in if text_eq j k then rest else field j v rest

-- The property in its place, or else at the end. An object has one property of a name.
unfoldable pub set_field : Text → Value → Fields → Fields
unfolding delete_field
set_field k v end = field k v end
set_field k v (field j w fs) =
    let rest = set_field k v fs in
    if text_eq j k then field k v (delete_field k fs) else field j w rest

text_eq-apart : (j k : Text) → text_eq j k ≡ false → j ≢ k
text_eq-apart j k h e = cc (sym h ∙ (text_eq_iff j k).1 e)

-- A property that is set counts as one at the front of the others.
pub sorted-set_field :
    (k : Text) (v : Value) (fs : Fields)
    → sorted (set_field k v fs) ≡ sorted (field k v (delete_field k fs))
unfolding set_field delete_field
sorted-set_field k v end = refl
sorted-set_field k v (field j w fs) = elim (Bool-cases (text_eq j k)) [
  | inl same ↦ rw same refl
  | inr apart ↦ rw apart (
      sorted_field j w (set_field k v fs) (field k v (delete_field k fs)) (sorted-set_field k v fs)
      ∙ sorted_swap j k w v (delete_field k fs) (text_eq-apart j k apart))
]

-- The name stands once, if at all.
abbrev pub Once : Text → Fields → Type 0
Once k end = Unit
Once k (field j v fs) = if text_eq j k then delete_field k fs ≡ fs else Once k fs

pub delete_field_idem :
    (k : Text) (fs : Fields) → delete_field k (delete_field k fs) ≡ delete_field k fs
unfolding delete_field
delete_field_idem k end = refl
delete_field_idem k (field j v fs) = ground (arith, delete_field_idem k fs)

pub delete_field_comm :
    (j k : Text) (fs : Fields)
    → delete_field j (delete_field k fs) ≡ delete_field k (delete_field j fs)
unfolding delete_field
delete_field_comm j k end = refl
delete_field_comm j k (field i v fs) = ground (arith, delete_field_comm j k fs)

pub delete_field-set_field :
    (k : Text) (v : Value) (fs : Fields) → delete_field k (set_field k v fs) ≡ delete_field k fs
unfolding delete_field set_field
delete_field-set_field k v end = rw (text_eq_refl k) refl
delete_field-set_field k v (field j w fs) =
    ground (arith, delete_field-set_field k v fs, delete_field_idem k fs, text_eq_refl k)

pub get_field-set_field : (k : Text) (v : Value) (fs : Fields) → get_field k (set_field k v fs) ≡ v
unfolding get_field set_field
get_field-set_field k v end = rw (text_eq_refl k) refl
get_field-set_field k v (field j w fs) = ground (arith, get_field-set_field k v fs, text_eq_refl k)

module _ (j k : Text) (apart : text_eq k j ≡ false) where
  get_field-delete_field : (fs : Fields) → get_field j (delete_field k fs) ≡ get_field j fs
  unfolding get_field delete_field
  get_field-delete_field end = refl
  get_field-delete_field (field i v fs) =
      ground
        (arith, get_field-delete_field fs, (text_eq_iff i j).0, (text_eq_iff i k).0, text_eq_refl k)

  pub get_field-set_field_other :
      (v : Value) (fs : Fields) → get_field j (set_field k v fs) ≡ get_field j fs
  unfolding get_field set_field
  get_field-set_field_other v end = rw apart refl
  get_field-set_field_other v (field i w fs) = ground (
    arith,
    get_field-set_field_other v fs,
    get_field-delete_field fs,
    (text_eq_iff i j).0,
    (text_eq_iff i k).0,
    text_eq_refl k,
  )

  pub delete_field-set_field_other :
      (v : Value) (fs : Fields)
      → delete_field j (set_field k v fs) ≡ set_field k v (delete_field j fs)
  unfolding delete_field set_field
  delete_field-set_field_other v end = rw apart refl
  delete_field-set_field_other v (field i w fs) = ground (
    arith,
    delete_field-set_field_other v fs,
    delete_field_comm j k fs,
    (text_eq_iff i j).0,
    (text_eq_iff i k).0,
    text_eq_refl k,
  )

-- A property that is there, once, counts as one at the front of the others.
pub sorted-Once :
    (k : Text) (fs : Fields)
    → Once k fs
    → get_field k fs ≢ undefined
    → sorted fs ≡ sorted (field k (get_field k fs) (delete_field k fs))
unfolding get_field delete_field
sorted-Once k end h found = absurd (found refl)
sorted-Once k (field j w fs) h found = elim (Bool-cases (text_eq j k)) [
  | inl same ↦
      let unique = rw same at h in
      let name = (text_eq_iff j k).0 same in
      rw (same, unique) (ap (λ k. sorted (field k w fs)) name)
  | inr apart ↦
      let once = rw apart at h in
      let there = rw apart at found in
      rw apart (
        sorted_field j w fs (field k (get_field k fs) (delete_field k fs))
          (sorted-Once k fs once there)
        ∙ sorted_swap j k w (get_field k fs) (delete_field k fs) (text_eq-apart j k apart))
]

-- One text for the objects that differ in where a property stands.
pub canonicalize-sorted :
    (fs gs : Fields) → sorted fs ≡ sorted gs → canonicalize (obj fs) ≡ canonicalize (obj gs)
unfolding canonicalize
canonicalize-sorted fs gs h = rw h refl
