-- ===== src/CommitAudit/Verdict.antt =====
-- When scripts/audit-commits.js lets a range of commits pass.
use nodejs_wss_tunnel.Prelude.{
  ℕ, ◌+◌, ◌≤◌, ◌<◌, ◌≡◌, refl, sym, ap, ◌∙◌, ◌↔◌, inl, inr, true, false, Bool-cases, Option, none,
  some, List, [], ◌∷◌, ◌++◌, map, length, ltb, arith, All, if◌then◌else◌,
}
use nodejs_wss_tunnel.Prelude.Text.{is_empty, split_on}
use nodejs_wss_tunnel.Prelude.Options.{◌>>=◌, >>=-some}
use nodejs_wss_tunnel.CommitAudit.{
  Diagnostic, types, has_type, max_subject_length, max_churn, validate_subject, is_good_line,
  validate_lines, validate_body, Churn, parse_numstat, Git, without_line_end, is_too_much,
  churn_diagnostics, audit_commit, audit_all, audit_range, present, has_none, single_flag,
  base_flag, head_flag, argument, main_range, main_with, main,
}
use nodejs_wss_tunnel.CommitAudit.Subjects.{IsConventional, has_type_iff}

validate_subject-good :
    (s : List ℕ)
    → validate_subject s ≡ []
    → (length s ≤ max_subject_length) × (has_type types s ≡ true)
unfolding validate_subject
validate_subject-good s e = elim (Bool-cases (ltb max_subject_length (length s))) [
  | inl long ↦ ground (arith, e, long)
  | inr short ↦ elim (Bool-cases (has_type types s)) [
    | inl is ↦ (ground (arith, short), is)
    | inr is_not ↦ ground (arith, e, short, is_not)
  ]
]

good-validate_subject :
    (s : List ℕ) → length s ≤ max_subject_length → has_type types s ≡ true → validate_subject s ≡ []
unfolding validate_subject
good-validate_subject s short is = ground (arith, short, is)

-- The diagnostics of a subject are none exactly if it has at most 72 code units and is a Conventional
-- Commit: one of the types, a scope of small letters, digits and dashes in parentheses or none, an
-- exclamation mark or none, a colon and a blank, and a description of at least one character and one
-- line.
pub validate_subject-IsConventional :
    (s : List ℕ)
    → (validate_subject s ≡ []) ↔ ((length s ≤ max_subject_length) × IsConventional types s)
validate_subject-IsConventional s = (
  λ e. let (short, is) = validate_subject-good s e in (short, (has_type_iff types s).0 is),
  λ (short, is). good-validate_subject s short ((has_type_iff types s).1 is),
)

validate_lines-All :
    (lines : List (List ℕ))
    → validate_lines lines ≡ []
    → All (λ line. is_good_line line ≡ true) lines
unfolding validate_lines
validate_lines-All [] e = tt
validate_lines-All (line ∷ lines) e = elim (Bool-cases (is_good_line line)) [
  | inl good ↦ (good, validate_lines-All lines (ground (arith, e, good)))
  | inr bad ↦ ground (arith, e, bad)
]

All-validate_lines :
    (lines : List (List ℕ))
    → All (λ line. is_good_line line ≡ true) lines
    → validate_lines lines ≡ []
unfolding validate_lines
All-validate_lines [] h = refl
All-validate_lines (line ∷ lines) (good, h) = ground (arith, good, All-validate_lines lines h)

-- A commit within the policy.
pub record IsConforming (git : Git) (sha : List ℕ) : Type 0 where
  subject : List ℕ
  body : List ℕ
  numstat : List ℕ
  has_subject : git.subject sha ≡ some subject
  has_body : git.body sha ≡ some body
  has_numstat : git.numstat sha ≡ some numstat
  is_short : length (without_line_end subject) ≤ max_subject_length
  is_conventional : IsConventional types (without_line_end subject)
  lines : All (λ line. is_good_line line ≡ true) (split_on 10 body)
  small : (parse_numstat numstat).gained < (parse_numstat numstat).lost + max_churn

append-[] {ℓ} : {A : Type ℓ} (xs ys : List A) → xs ++ ys ≡ [] → (xs ≡ []) × (ys ≡ [])
append-[] [] ys e = (refl, e)
append-[] (x ∷ xs) ys e = ground (arith, e)

small_churn : (churn : Churn) → churn_diagnostics churn ≡ [] → churn.gained < churn.lost + max_churn
small_churn churn e = elim (Bool-cases (is_too_much churn)) [
  | inl big ↦ ground (arith, e, big)
  | inr small ↦ ground (arith, small)
]

churn_small : (churn : Churn) → churn.gained < churn.lost + max_churn → churn_diagnostics churn ≡ []
churn_small churn h = ground (arith, h)

audit_commit-IsConforming :
    (git : Git) (sha : List ℕ) → audit_commit git sha ≡ some [] → IsConforming git sha
unfolding audit_commit validate_body
audit_commit-IsConforming git sha e =
    let (subject, e0, r0) = >>=-some (git.subject sha) _ [] e in
    let (body, e1, r1) = >>=-some (git.body sha) _ [] r0 in
    let (numstat, e2, r2) = >>=-some (git.numstat sha) _ [] r1 in
    let (good, later) =
      append-[] (validate_subject (without_line_end subject))
        (validate_lines (split_on 10 body) ++ churn_diagnostics (parse_numstat numstat))
        (ground (arith, r2)) in
    let (lines, small) =
      append-[] (validate_lines (split_on 10 body)) (churn_diagnostics (parse_numstat numstat))
        later in
    let (short, is) = (validate_subject-IsConventional (without_line_end subject)).0 good in
    record {
      subject = subject;
      body = body;
      numstat = numstat;
      has_subject = e0;
      has_body = e1;
      has_numstat = e2;
      is_short = short;
      is_conventional = is;
      lines = validate_lines-All (split_on 10 body) lines;
      small = small_churn (parse_numstat numstat) small;
    }

IsConforming-audit_commit :
    (git : Git) (sha : List ℕ) → IsConforming git sha → audit_commit git sha ≡ some []
unfolding audit_commit validate_body
IsConforming-audit_commit git sha h =
    rw
      (
        h.has_subject,
        h.has_body,
        h.has_numstat,
        (validate_subject-IsConventional (without_line_end h.subject)).1
            (h.is_short, h.is_conventional),
        All-validate_lines (split_on 10 h.body) h.lines,
        churn_small (parse_numstat h.numstat) h.small,
      )
      refl

map-[] {ℓ κ} : {A : Type ℓ} {B : Type κ} (f : A → B) (xs : List A) → map f xs ≡ [] → xs ≡ []
map-[] f [] e = refl
map-[] f (x ∷ xs) e = ground (arith, e)

audit_all-All :
    (git : Git) (shas : List (List ℕ)) → audit_all git shas ≡ some [] → All (IsConforming git) shas
unfolding audit_all
audit_all-All git [] e = tt
audit_all-All git (sha ∷ shas) e =
    let (diagnostics, e0, r0) = >>=-some (audit_commit git sha) _ [] e in
    let (rest, e1, r1) = >>=-some (audit_all git shas) _ [] r0 in
    let (here, later) =
      append-[] (map (λ diagnostic. (sha, diagnostic)) diagnostics) rest (ground (arith, r1)) in
    (
      audit_commit-IsConforming git sha (e0 ∙ ap some (map-[] _ diagnostics here)),
      audit_all-All git shas (e1 ∙ ap some later),
    )

All-audit_all :
    (git : Git) (shas : List (List ℕ)) → All (IsConforming git) shas → audit_all git shas ≡ some []
unfolding audit_all
All-audit_all git [] h = refl
All-audit_all git (sha ∷ shas) (here, h) =
    rw (IsConforming-audit_commit git sha here, All-audit_all git shas h) refl

-- The commits of a range, which `git` lists, conform.
pub record IsConformingRange (git : Git) (base head : List ℕ) : Type 0 where
  pub listing : List ℕ
  pub is_listed : git.rev_list base head ≡ some listing
  pub conform : All (IsConforming git) (present (split_on 10 listing))

module _ (git : Git) (base head : List ℕ) where
  code : ℕ × List (List ℕ × Diagnostic) → Option ℕ
  code result = some (if has_none result.1 then 0 else 1)

  main_range-code :
      (is_empty base ≡ false)
      → (is_empty head ≡ false)
      → main_range git (some base) (some head) ≡ (audit_range git base head >>= code)
  unfolding main_range code
  main_range-code there there' = rw (there, there') refl

  passed :
      (is_empty base ≡ false)
      → (is_empty head ≡ false)
      → main_range git (some base) (some head) ≡ some 0
      → IsConformingRange git base head
  unfolding audit_range code
  passed there there' e =
      let (result, e0, r0) =
        >>=-some (audit_range git base head) code 0 (sym (main_range-code there there') ∙ e) in
      let (listing, e1, r1) = >>=-some (git.rev_list base head) _ result e0 in
      let (violations, e2, r2) =
        >>=-some (audit_all git (present (split_on 10 listing))) _ result r1 in
      let same : result.1 ≡ violations = ground (arith, r2) in
      record {
        listing = listing;
        is_listed = e1;
        conform =
            audit_all-All git (present (split_on 10 listing))
              (e2 ∙ ap some (sym same ∙ nothing_found result.1 r0));
      }
    where
      nothing_found :
          {A : Type 0} (found : List A)
          → ◌≡◌ {A = Option ℕ} (some (if has_none found then 0 else 1)) (some 0)
          → found ≡ []
      nothing_found [] e = refl
      nothing_found (v ∷ found) e = ground (arith, e)

  passes :
      (is_empty base ≡ false)
      → (is_empty head ≡ false)
      → IsConformingRange git base head
      → main_range git (some base) (some head) ≡ some 0
  unfolding main_range audit_range
  passes there there' h =
      rw (there, there', h.is_listed, All-audit_all git (present (split_on 10 h.listing)) h.conform)
        refl

-- Without `--single`, and with `--base` and `--head` each before a text that is not empty: the exit
-- code is 0 exactly if git lists the range and shows each commit of it, and each has a conventional
-- subject of at most 72 code units, only bullets, trailers and blank lines in its body, and a churn
-- below 3000 lines.
pub main-IsConformingRange :
    (git : Git) (args : List (List ℕ)) (base head : List ℕ)
    → argument single_flag args ≡ none
    → argument base_flag args ≡ some base
    → argument head_flag args ≡ some head
    → is_empty base ≡ false
    → is_empty head ≡ false
    → (main git args ≡ some 0) ↔ IsConformingRange git base head
unfolding main main_with
main-IsConformingRange git args base head single at_base at_head there there' =
    rw (single, at_base, at_head)
      (passed git base head there there', passes git base head there there')
