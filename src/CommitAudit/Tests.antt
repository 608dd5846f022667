-- ===== src/CommitAudit/Tests.antt =====
-- A range of one commit of scripts/audit-commits.js, and its subject.
use nodejs_wss_tunnel.Prelude.{ℕ, ◌≤◌, ◌≡◌, ◌↔◌, refl, some, List, [], ◌∷◌, length}
use nodejs_wss_tunnel.CommitAudit.{
  Git, not_conventional, types, max_subject_length, validate_subject, has_type, behind, after_type,
  closes_scope, argument, main,
}
use nodejs_wss_tunnel.CommitAudit.Subjects.{IsConventional}
use nodejs_wss_tunnel.CommitAudit.Verdict.{
  IsConformingRange, validate_subject-IsConventional, main-IsConformingRange,
}

-- "fix(tcp)!: a".
abbrev subject : List ℕ
subject = 102 ∷ 105 ∷ 120 ∷ 40 ∷ 116 ∷ 99 ∷ 112 ∷ 41 ∷ 33 ∷ 58 ∷ 32 ∷ 97 ∷ []

validate_subject-good_subject : validate_subject subject ≡ []
unfolding validate_subject has_type behind after_type closes_scope
validate_subject-good_subject = refl

-- "fix : a".
validate_subject-blank :
    validate_subject (102 ∷ 105 ∷ 120 ∷ 32 ∷ 58 ∷ 32 ∷ 97 ∷ []) ≡ not_conventional ∷ []
unfolding validate_subject has_type behind after_type closes_scope
validate_subject-blank = refl

validate_subject-IsConventional_example :
    (validate_subject subject ≡ [])
    ↔ ((length subject ≤ max_subject_length) × IsConventional types subject)
validate_subject-IsConventional_example = validate_subject-IsConventional subject

-- The range has the commit "c", which adds 2 lines and deletes 3 of the file "f".
abbrev repository : Git
repository = record {
  subject = λ sha. some subject;
  body = λ sha. some (45 ∷ 32 ∷ 98 ∷ 10 ∷ []);
  numstat = λ sha. some (50 ∷ 9 ∷ 51 ∷ 9 ∷ 102 ∷ 10 ∷ []);
  rev_list = λ base head. some (99 ∷ 10 ∷ []);
}

-- "--base" "a" "--head" "b".
abbrev arguments : List (List ℕ)
arguments =
    (45 ∷ 45 ∷ 98 ∷ 97 ∷ 115 ∷ 101 ∷ [])
    ∷ (97 ∷ [])
    ∷ (45 ∷ 45 ∷ 104 ∷ 101 ∷ 97 ∷ 100 ∷ [])
    ∷ (98 ∷ [])
    ∷ []

main-IsConformingRange_example :
    (main repository arguments ≡ some 0) ↔ IsConformingRange repository (97 ∷ []) (98 ∷ [])
unfolding argument
main-IsConformingRange_example =
    main-IsConformingRange repository arguments (97 ∷ []) (98 ∷ []) refl refl refl refl refl
