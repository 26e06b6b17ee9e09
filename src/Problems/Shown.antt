-- ===== src/Problems/Shown.antt =====
-- The driver code that a player is shown is the one that submissions are built with.
use rogue_learn_code_battle.Base.{
  ◌≡◌, ◌∙◌, refl, sym, ap, Bool, true, false, ◌&&◌, none, some, List, [], ◌∷◌, Text, arith, any,
  find, Has, text_eq, text_eq_iff, ◌==◌, if◌then◌else◌, Bool-cases, Option-cases, inl, inr,
}
use rogue_learn_code_battle.Store.Models.{Uuid, Language, CodeProblemLanguageDetail}
use rogue_learn_code_battle.Store.Db.{Db, QueryResult, ok, no_rows, query_error, IsUp}
use rogue_learn_code_battle.Store.Submissions.{
  or_no_rows, get_language_by_name, get_code_problem_language_detail,
}
use rogue_learn_code_battle.Executor.Languages.{normalize_language}
use rogue_learn_code_battle.Problems.{
  get_code_problem_language_detail_by_language_name, not_found, to_problem_detail_response,
  answer_with, get_problem_details,
}

-- Languages of one name have one id.
abbrev pub UniqueNames : List Language → Type 0
UniqueNames languages =
    (l : Language) (m : Language)
    → Has l languages
    → Has m languages
    → l.name ≡ m.name
    → l.id ≡ m.id

some_eq : {A : Type 0} {a b : A} → some a ≡ some b → a ≡ b
some_eq e = cc

some-none : {A : Type 0} {a : A} → some a ≡ none → ⊥
some-none e = cc

find-Has :
    {A : Type 0} (p : A → Bool) (xs : List A) {a : A} → find p xs ≡ some a → Has a xs × (p a ≡ true)
find-Has p [] h = cc
find-Has p (x ∷ xs) {a} h = elim (Bool-cases (p x)) [
  | inl passes ↦
      let same : x ≡ a = some_eq (rw passes at h) in (inl (sym same), ap p (sym same) ∙ passes)
  | inr fails ↦ let (has, holds) = find-Has p xs (rw fails at h) in (inr has, holds)
]

any-Has :
    {A : Type 0} (p : A → Bool) (xs : List A) {a : A} → Has a xs → p a ≡ true → any p xs ≡ true
any-Has p [] h holds = elim h [ ]
any-Has p (x ∷ xs) (inl e) holds = ground (arith, ap p e)
any-Has p (x ∷ xs) (inr h) holds = ground (arith, any-Has p xs h holds)

any-none :
    {A : Type 0} (p : A → Bool) (xs : List A)
    → ((x : A) → Has x xs → p x ≡ false)
    → any p xs ≡ false
any-none p [] h = refl
any-none p (x ∷ xs) h = rw (h x (inl refl)) (any-none p xs (λ y has. h y (inr has)))

find-none :
    {A : Type 0} (p : A → Bool) (xs : List A) → find p xs ≡ none → (x : A) → Has x xs → p x ≡ false
find-none p [] h x has = elim has [ ]
find-none p (y ∷ xs) h x (inl e) = ground (arith, ap p e)
find-none p (y ∷ xs) h x (inr has) = elim (Bool-cases (p y)) [
  | inl passes ↦ absurd (some-none (rw passes at h))
  | inr fails ↦ find-none p xs (rw fails at h) x has
]

find_ext :
    {A : Type 0} (p q : A → Bool) (xs : List A) → ((x : A) → p x ≡ q x) → find p xs ≡ find q xs
find_ext p q [] same = refl
find_ext p q (x ∷ xs) same = rw (same x, find_ext p q xs same) refl

-- Whether a language is that of a detail and has the name.
abbrev is_of : Text → CodeProblemLanguageDetail → Language → Bool
is_of name d l = l.id == d.language_id && text_eq l.name name

is_of-found :
    (name : Text) (languages : List Language) (l : Language) (d : CodeProblemLanguageDetail)
    → UniqueNames languages
    → find (λ (l : Language). text_eq l.name name) languages ≡ some l
    → any (is_of name d) languages ≡ (d.language_id == l.id)
is_of-found name languages l d unique h =
    let (here, named) = find-Has (λ (l : Language). text_eq l.name name) languages h in
    elim (Bool-cases (d.language_id == l.id)) [
      | inl same ↦ any-Has (is_of name d) languages here (ground (arith, same, named)) ∙ sym same
      | inr other ↦
          any-none (is_of name d) languages (λ m has. elim (Bool-cases (text_eq m.name name)) [
            | inl same ↦
                let same_id =
                  unique m l has here
                    ((text_eq_iff m.name name).0 same ∙ sym ((text_eq_iff l.name name).0 named)) in
                ground (arith, same_id, other)
            | inr differs ↦ ground (arith, differs)
          ])
          ∙ sym other
    ]

is_of-not_found :
    (name : Text) (languages : List Language) (d : CodeProblemLanguageDetail)
    → find (λ (l : Language). text_eq l.name name) languages ≡ none
    → any (is_of name d) languages ≡ false
is_of-not_found name languages d h =
    any-none (is_of name d) languages
      (λ l has. ground (arith, find-none (λ (l : Language). text_eq l.name name) languages h l has))

-- What the two queries of a submission read.
abbrev pub judged_in : Uuid → Db → QueryResult Language → QueryResult CodeProblemLanguageDetail
judged_in problem db (ok l) = (get_code_problem_language_detail problem l.id db).0
judged_in problem db no_rows = no_rows
judged_in problem db query_error = query_error

abbrev pub judged_detail : Uuid → Text → Db → QueryResult CodeProblemLanguageDetail
judged_detail problem name db = judged_in problem db (get_language_by_name name db).0

up_name :
    (name : Text) (db : Db)
    → IsUp db
    → (get_language_by_name name db).0
      ≡ or_no_rows (find (λ (l : Language). text_eq l.name name) db.languages)
unfolding get_language_by_name
up_name name db up = rw (up, get_language_by_name) refl

up_detail :
    (problem language : Uuid) (db : Db)
    → IsUp db
    → (get_code_problem_language_detail problem language db).0
      ≡ or_no_rows (
          find
            (λ (d : CodeProblemLanguageDetail).
              d.code_problem_id == problem && d.language_id == language)
            db.details)
unfolding get_code_problem_language_detail
up_detail problem language db up = rw (up, get_code_problem_language_detail) refl

up_joined :
    (problem : Uuid) (name : Text) (db : Db)
    → IsUp db
    → (get_code_problem_language_detail_by_language_name problem name db).0
      ≡ or_no_rows (
          find
            (λ (d : CodeProblemLanguageDetail).
              d.code_problem_id == problem && any (is_of name d) db.languages)
            db.details)
unfolding get_code_problem_language_detail_by_language_name
up_joined problem name db up = rw (up, get_code_problem_language_detail_by_language_name) refl

find-nothing :
    {A : Type 0} (p : A → Bool) (xs : List A) → ((x : A) → p x ≡ false) → find p xs ≡ none
find-nothing p [] h = refl
find-nothing p (x ∷ xs) h = rw (h x) (find-nothing p xs h)

and_false : (b : Bool) → (b && false) ≡ false
and_false true = refl
and_false false = refl

joined_same :
    (problem : Uuid) (name : Text) (db : Db)
    → IsUp db
    → UniqueNames db.languages
    → (get_code_problem_language_detail_by_language_name problem name db).0
      ≡ judged_detail problem name db
joined_same problem name db up unique =
    elim (Option-cases (find (λ (l : Language). text_eq l.name name) db.languages)) [
      | inl absent ↦
          up_joined problem name db up
          ∙ ap or_no_rows (
              find-nothing _ db.details (λ d.
                ap (λ b. d.code_problem_id == problem && b)
                  (is_of-not_found name db.languages d absent)
                ∙ and_false (d.code_problem_id == problem)))
          ∙ sym (ap (judged_in problem db) (up_name name db up ∙ ap or_no_rows absent))
      | inr (l, here) ↦
          up_joined problem name db up
          ∙ ap or_no_rows (
              find_ext _ _ db.details (λ d.
                ap (λ b. d.code_problem_id == problem && b)
                  (is_of-found name db.languages l d unique here)))
          ∙ sym (up_detail problem l.id db up)
          ∙ sym (ap (judged_in problem db) (up_name name db up ∙ ap or_no_rows here))
    ]

-- While the connection holds, and languages of one name have one id, GetProblemDetails on a
-- well-formed problem id answers 404 for a language that NormalizeLanguage does not know; for
-- another it answers what the two queries of a submission of this problem in this language read,
-- which the submission is built with, and 500 exactly when they read nothing.
pub get_problem_details-judged :
    (problem : Uuid) (lang : Text) (db : Db)
    → IsUp db
    → UniqueNames db.languages
    → let normalized = normalize_language lang in
      (get_problem_details (some problem) lang db).0 ≡ (
        if normalized.1
        then answer_with to_problem_detail_response (judged_detail problem normalized.0 db)
        else not_found)
unfolding get_problem_details
get_problem_details-judged problem lang db up unique =
    elim (Bool-cases (normalize_language lang).1) [
      | inl known ↦
          rw (known, get_problem_details)
            (ap (answer_with to_problem_detail_response)
              (joined_same problem (normalize_language lang).0 db up unique))
      | inr unknown ↦ rw (unknown, get_problem_details) refl
    ]
