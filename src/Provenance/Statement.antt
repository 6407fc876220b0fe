-- ===== src/Provenance/Statement.antt =====
-- Which JSON values are read as a statement.
use witseal.Prelude.{
  ◌≡◌, ◌↔◌, ◌⊎◌, inl, inr, refl, sym, ap, subst, ◌∙◌, true, List, [], ◌∷◌, Option, none, some,
  Option-cases, ok,
}
use witseal.Prelude.Text.{Text, codes}
use witseal.Json.{
  Value, null, undefined, bool, num, str, arr, obj, unsupported, Items, nil, cons, Fields,
}
use witseal.Provenance.{
  InTotoStatement, property, is_object, text_or_none, digest_of, subjects_of, as_statement,
}
use witseal.Provenance.Shape.{
  Has, bind-ok, text-Has, items-Has, property-Has, Has-property, Has-is_object, guarded-not,
  cons-ok,
}

-- What `typeof` calls an object.
abbrev pub IsObject : Value → Type 0
IsObject v = ((fs : Fields) × (v ≡ obj fs)) ⊎ ((vs : Items) × (v ≡ arr vs))

is_object_iff : (v : Value) → (is_object v ≡ true) ↔ IsObject v
is_object_iff (obj fs) = ((λ h. inl (fs, refl)), (λ h. refl))
is_object_iff (arr vs) = ((λ h. inr (vs, refl)), (λ h. refl))
is_object_iff (str s) = ((λ h. cc), (λ h. elim h [ inl (_, e) ↦ cc | inr (_, e) ↦ cc ]))
is_object_iff null = ((λ h. cc), (λ h. elim h [ inl (_, e) ↦ cc | inr (_, e) ↦ cc ]))
is_object_iff undefined = ((λ h. cc), (λ h. elim h [ inl (_, e) ↦ cc | inr (_, e) ↦ cc ]))
is_object_iff (bool b) = ((λ h. cc), (λ h. elim h [ inl (_, e) ↦ cc | inr (_, e) ↦ cc ]))
is_object_iff (num n) = ((λ h. cc), (λ h. elim h [ inl (_, e) ↦ cc | inr (_, e) ↦ cc ]))
is_object_iff (unsupported s) = ((λ h. cc), (λ h. elim h [ inl (_, e) ↦ cc | inr (_, e) ↦ cc ]))

-- The text that is the `sha256` of this value, or that there is none.
abbrev pub DigestIs : Value → Option Text → Type 0
DigestIs v none = (t : Text) → ¬ Has (codes "sha256") v (str t)
DigestIs v (some t) = Has (codes "sha256") v (str t)

text_or_none-some : (v : Value) (t : Text) → (text_or_none v ≡ some t) ↔ (v ≡ str t)
text_or_none-some (str s) t = ((λ h. cc), (λ h. cc))
text_or_none-some null t = ((λ h. cc), (λ h. cc))
text_or_none-some undefined t = ((λ h. cc), (λ h. cc))
text_or_none-some (bool b) t = ((λ h. cc), (λ h. cc))
text_or_none-some (num n) t = ((λ h. cc), (λ h. cc))
text_or_none-some (arr vs) t = ((λ h. cc), (λ h. cc))
text_or_none-some (obj fs) t = ((λ h. cc), (λ h. cc))
text_or_none-some (unsupported s) t = ((λ h. cc), (λ h. cc))

digest_iff :
    (v : Value) (d : Option Text) → (text_or_none (property (codes "sha256") v) ≡ d) ↔ DigestIs v d
digest_iff v (some t) =
    let read = text_or_none-some (property (codes "sha256") v) t in
    (
      (λ h. property-Has (codes "sha256") v (str t) (λ u. cc) (read.0 h)),
      (λ h. read.1 (Has-property (codes "sha256") v (str t) h)),
    )
digest_iff v none = (
  (λ h t has.
      let there =
        (text_or_none-some (property (codes "sha256") v) t).1
          (Has-property (codes "sha256") v (str t) has) in
      cc (sym h ∙ there)),
  (λ n. elim (Option-cases (text_or_none (property (codes "sha256") v))) [
    | inl h ↦ h
    | inr (t, h) ↦ absurd (
        n t (
          property-Has (codes "sha256") v (str t) (λ u. cc)
            ((text_or_none-some (property (codes "sha256") v) t).0 h)))
  ]),
)

-- A subject: an object whose `digest` is an object, and its `sha256` if that is a text.
abbrev pub IsSubject : Value → Option Text → Type 0
IsSubject v d =
    (digest : Value) × Has (codes "digest") v digest × IsObject digest × DigestIs digest d

IsSubject-iff : (v : Value) (d : Option Text) → (digest_of v ≡ ok d) ↔ IsSubject v d
IsSubject-iff v d =
    let digest = property (codes "digest") v in
    (
      (λ h.
          let (_, there) = (guarded-not (is_object v) _ _ d).0 h in
          let (inner, read) = (guarded-not (is_object digest) _ _ d).0 there in
          let object = (is_object_iff digest).0 inner in
          (
            digest,
            property-Has (codes "digest") v digest
                (λ u. elim object [ inl (_, e) ↦ cc (sym u ∙ e) | inr (_, e) ↦ cc (sym u ∙ e) ])
                refl,
            object,
            (digest_iff digest d).0 (cc read),
          )),
      (λ (inside, has, object, is).
          let same = Has-property (codes "digest") v inside has in
          (guarded-not (is_object v) _ _ d).1 (
            Has-is_object (codes "digest") v inside has,
            (guarded-not (is_object digest) _ _ d).1 (
              ap is_object same ∙ (is_object_iff inside).1 object,
              ap (λ w. ok (text_or_none (property (codes "sha256") w))) same
                  ∙ ap ok ((digest_iff inside d).1 is),
            ),
          )),
    )

-- One entry for each.
abbrev pub AreSubjects : Items → List (Option Text) → Type 0
AreSubjects nil [] = Unit
AreSubjects (cons v vs) (d ∷ ds) = IsSubject v d × AreSubjects vs ds
AreSubjects _ _ = ⊥

subjects_iff : (vs : Items) (ds : List (Option Text)) → (subjects_of vs ≡ ok ds) ↔ AreSubjects vs ds
subjects_iff nil [] = ((λ h. tt), (λ h. refl))
subjects_iff nil (d ∷ ds) = ((λ h. cc), (λ h. absurd h))
subjects_iff (cons v vs) [] = (
  (λ h.
      let (one, _, more) = (bind-ok (digest_of v) _ []).0 h in
      let (rest, _, last) = (bind-ok (subjects_of vs) _ []).0 more in cc last),
  (λ h. absurd h),
)
subjects_iff (cons v vs) (d ∷ ds) = (
  (λ h.
      let (one, first, more) = (bind-ok (digest_of v) _ (d ∷ ds)).0 h in
      let (others, rest, last) = (bind-ok (subjects_of vs) _ (d ∷ ds)).0 more in
      let (head, tail) = cons-ok one d others ds last in
      ((IsSubject-iff v d).0 (first ∙ ap ok head), (subjects_iff vs ds).0 (rest ∙ ap ok tail))),
  (λ (one, rest). (bind-ok (digest_of v) _ (d ∷ ds)).1 (
    d,
    (IsSubject-iff v d).1 one,
    (bind-ok (subjects_of vs) _ (d ∷ ds)).1 (ds, (subjects_iff vs ds).1 rest, refl),
  )),
)

-- The value is an object with a text as its `_type` and its `predicateType`, and an array of subjects.
abbrev pub IsStatement : Value → InTotoStatement → Type 0
IsStatement value st =
    Has (codes "_type") value (str st.statement_type)
    × Has (codes "predicateType") value (str st.predicate_type)
    × ((entries : Items) × Has (codes "subject") value (arr entries)
        × AreSubjects entries st.subject)

pub as_statement_iff :
    (value : Value) (st : InTotoStatement) → (as_statement value ≡ ok st) ↔ IsStatement value st
unfolding as_statement
as_statement_iff value st = (
  (λ h.
      let (_, read) = (guarded-not (is_object value) _ _ st).0 h in
      let (type, has_type, behind_type) = (bind-ok _ _ st).0 read in
      let (predicate, has_predicate, behind_predicate) = (bind-ok _ _ st).0 behind_type in
      let (entries, has_entries, behind_entries) = (bind-ok _ _ st).0 behind_predicate in
      let (subjects, has_subjects, built) = (bind-ok _ _ st).0 behind_entries in
      let made : record { statement_type = type; predicate_type = predicate; subject = subjects }
          ≡ st =
        cc built in
      subst (IsStatement value) made (
        (text-Has _ (codes "_type") value type).0 has_type,
        (text-Has _ (codes "predicateType") value predicate).0 has_predicate,
        (
          entries,
          (items-Has _ (codes "subject") value entries).0 has_entries,
          (subjects_iff entries subjects).0 has_subjects,
        ),
      )),
  (λ (type, predicate, (entries, has_entries, subjects)). (guarded-not (is_object value) _ _ st).1 (
    Has-is_object (codes "_type") value (str st.statement_type) type,
    (bind-ok _ _ st).1 (
      st.statement_type,
      (text-Has _ (codes "_type") value st.statement_type).1 type,
      (bind-ok _ _ st).1 (
        st.predicate_type,
        (text-Has _ (codes "predicateType") value st.predicate_type).1 predicate,
        (bind-ok _ _ st).1 (
          entries,
          (items-Has _ (codes "subject") value entries).1 has_entries,
          (bind-ok _ _ st).1 (st.subject, (subjects_iff entries _).1 subjects, refl),
        ),
      ),
    ),
  )),
)
