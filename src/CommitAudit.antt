-- ===== src/CommitAudit.antt =====
-- scripts/audit-commits.js: the check of the messages and sizes of commits. Texts are lists of code units.
pub mod Subjects
pub mod Verdict
mod Tests
use nodejs_wss_tunnel.Prelude.{
  ℕ, ◌+◌, ◌-◌, Bool, true, false, not, ◌&&◌, ◌||◌, Option, none, some, List, [], ◌∷◌, ◌++◌, map,
  length, leb, ltb, ◌==◌, if◌then◌else◌,
}
use nodejs_wss_tunnel.Prelude.Text.{is_empty, trim, split_on, same_text}
use nodejs_wss_tunnel.Prelude.Options.{◌>>=◌}
use nodejs_wss_tunnel.AllowList.Numbers.{Signed, parse_int}

abbrev pub max_subject_length : ℕ
max_subject_length = 72

abbrev pub max_churn : ℕ
max_churn = 3000

pub data Diagnostic : Type 0 where
  too_long : ℕ → Diagnostic
  not_conventional : Diagnostic
  not_bullet : List ℕ → Diagnostic
  too_much_churn : ℕ → Diagnostic

-- `.` of a regular expression: no line end of ECMAScript.
abbrev pub is_dot : ℕ → Bool
is_dot c = not (c == 10 || c == 13 || c == 0x2028 || c == 0x2029)

abbrev pub all_dots : List ℕ → Bool
all_dots [] = true
all_dots (c ∷ s) = is_dot c && all_dots s

-- `: .+$`.
abbrev pub is_description : List ℕ → Bool
is_description (c ∷ d ∷ e ∷ s) = c == 58 && d == 32 && all_dots (e ∷ s)
is_description _ = false

-- `!?: .+$`.
abbrev pub is_end : List ℕ → Bool
is_end [] = false
is_end (c ∷ s) = c == 33 && is_description s || is_description (c ∷ s)

-- `[a-z0-9-]`.
abbrev pub is_scope_char : ℕ → Bool
is_scope_char c = leb 97 c && leb c 122 || leb 48 c && leb c 57 || c == 45

-- `[a-z0-9-]*\)` and the end; the class does not have the parenthesis.
unfoldable pub closes_scope : List ℕ → Bool
closes_scope [] = false
closes_scope (c ∷ s) = if is_scope_char c then closes_scope s else c == 41 && is_end s

-- `(\([a-z0-9-]+\))?` and the end.
unfoldable pub after_type : List ℕ → Bool
after_type (c ∷ d ∷ s) = c == 40 && is_scope_char d && closes_scope s || is_end (c ∷ d ∷ s)
after_type s = is_end s

-- The test of the text behind a prefix.
unfoldable pub behind : List ℕ → (List ℕ → Bool) → List ℕ → Bool
behind [] test s = test s
behind (p ∷ prefix) test [] = false
behind (p ∷ prefix) test (c ∷ s) = p == c && behind prefix test s

abbrev pub types : List (List ℕ)
types =
    (98 ∷ 117 ∷ 105 ∷ 108 ∷ 100 ∷ [])
    ∷ (99 ∷ 104 ∷ 111 ∷ 114 ∷ 101 ∷ [])
    ∷ (99 ∷ 105 ∷ [])
    ∷ (100 ∷ 111 ∷ 99 ∷ 115 ∷ [])
    ∷ (102 ∷ 101 ∷ 97 ∷ 116 ∷ [])
    ∷ (102 ∷ 105 ∷ 120 ∷ [])
    ∷ (112 ∷ 101 ∷ 114 ∷ 102 ∷ [])
    ∷ (114 ∷ 101 ∷ 102 ∷ 97 ∷ 99 ∷ 116 ∷ 111 ∷ 114 ∷ [])
    ∷ (114 ∷ 101 ∷ 118 ∷ 101 ∷ 114 ∷ 116 ∷ [])
    ∷ (115 ∷ 116 ∷ 121 ∷ 108 ∷ 101 ∷ [])
    ∷ (116 ∷ 101 ∷ 115 ∷ 116 ∷ [])
    ∷ []

unfoldable pub has_type : List (List ℕ) → List ℕ → Bool
has_type [] s = false
has_type (type ∷ ts) s = behind type after_type s || has_type ts s

-- SUBJECT_PATTERN.
abbrev pub is_conventional : List ℕ → Bool
is_conventional subject = has_type types subject

-- `validateSubject`.
unfoldable pub validate_subject : List ℕ → List Diagnostic
validate_subject subject =
    let pattern = if is_conventional subject then [] else not_conventional ∷ [] in
    if ltb max_subject_length (length subject) then too_long (length subject) ∷ pattern else pattern

-- `[A-Za-z0-9-]`, and TRAILER_PATTERN behind its first character.
abbrev pub is_trailer_char : ℕ → Bool
is_trailer_char c = leb 65 c && leb c 90 || is_scope_char c

unfoldable pub trailer_rest : List ℕ → Bool
trailer_rest [] = false
trailer_rest (c ∷ s) = if is_trailer_char c then trailer_rest s else is_description (c ∷ s)

abbrev pub is_trailer : List ℕ → Bool
is_trailer [] = false
is_trailer (c ∷ s) = is_trailer_char c && trailer_rest s

-- `line.startsWith('- ')`.
abbrev pub is_bullet : List ℕ → Bool
is_bullet (c ∷ d ∷ s) = c == 45 && d == 32
is_bullet _ = false

abbrev pub is_good_line : List ℕ → Bool
is_good_line line = is_empty (trim line) || is_bullet line || is_trailer line

-- `validateBody`.
unfoldable pub validate_lines : List (List ℕ) → List Diagnostic
validate_lines [] = []
validate_lines (line ∷ lines) =
    let rest = validate_lines lines in
    if is_good_line line then rest else not_bullet (trim line) ∷ rest

unfoldable pub validate_body : List ℕ → List Diagnostic
unfolding validate_lines
validate_body body = validate_lines (split_on 10 body)

-- The number `gained - lost`; a text that `parseInt` reads may have a minus sign.
pub record Churn : Type 0 where
  pub gained : ℕ
  pub lost : ℕ

abbrev pub plus : Churn → Signed → Churn
plus churn n =
    if n.negative
    then record churn { lost = churn.lost + n.magnitude }
    else record churn { gained = churn.gained + n.magnitude }

-- What `parseInt` makes of the two columns.
abbrev pub with_numbers : Churn → Option Signed → Option Signed → Churn
with_numbers churn (some additions) (some deletions) = plus (plus churn additions) deletions
with_numbers churn _ _ = churn

-- A line of `--numstat`, in its columns.
unfoldable pub with_columns : Churn → List (List ℕ) → Churn
with_columns churn (added ∷ deleted ∷ name ∷ columns) =
    if same_text added (45 ∷ []) || same_text deleted (45 ∷ [])
    then churn
    else with_numbers churn (parse_int added) (parse_int deleted)
with_columns churn _ = churn

unfoldable pub count_lines : Churn → List (List ℕ) → Churn
count_lines churn [] = churn
count_lines churn (raw ∷ lines) =
    count_lines (if is_empty (trim raw) then churn else with_columns churn (split_on 9 (trim raw)))
      lines

-- `parseNumstat`.
unfoldable pub parse_numstat : List ℕ → Churn
unfolding count_lines with_columns
parse_numstat text = count_lines (record { gained = 0; lost = 0 }) (split_on 10 text)

-- What `git` prints for a revision, or for a range, or `none` where `execFileSync` throws.
pub record Git : Type 0 where
  pub subject : List ℕ → Option (List ℕ)
  pub body : List ℕ → Option (List ℕ)
  pub numstat : List ℕ → Option (List ℕ)
  pub rev_list : List ℕ → List ℕ → Option (List ℕ)

-- `text.replace(/\n$/, '')`.
unfoldable pub without_line_end : List ℕ → List ℕ
without_line_end [] = []
without_line_end (c ∷ []) = if c == 10 then [] else c ∷ []
without_line_end (c ∷ d ∷ s) = c ∷ without_line_end (d ∷ s)

-- `churn >= MAX_CHURN`.
abbrev pub is_too_much : Churn → Bool
is_too_much churn = leb (churn.lost + max_churn) churn.gained

abbrev pub churn_diagnostics : Churn → List Diagnostic
churn_diagnostics churn =
    if is_too_much churn then too_much_churn (churn.gained - churn.lost) ∷ [] else []

-- `auditCommit`.
unfoldable pub audit_commit : Git → List ℕ → Option (List Diagnostic)
audit_commit git sha = do
  subject ← git.subject sha
  body ← git.body sha
  numstat ← git.numstat sha
  some (
      validate_subject (without_line_end subject)
      ++ (validate_body body ++ churn_diagnostics (parse_numstat numstat)))

-- The loop of `auditRange`.
unfoldable pub audit_all : Git → List (List ℕ) → Option (List (List ℕ × Diagnostic))
audit_all git [] = some []
audit_all git (sha ∷ shas) = do
  diagnostics ← audit_commit git sha
  rest ← audit_all git shas
  some (map (λ diagnostic. (sha, diagnostic)) diagnostics ++ rest)

-- `filter(Boolean)` of texts.
abbrev pub present : List (List ℕ) → List (List ℕ)
present [] = []
present (s ∷ ss) = let rest = present ss in if is_empty s then rest else s ∷ rest

-- `auditRange`: `total` and `violations`.
unfoldable pub audit_range : Git → List ℕ → List ℕ → Option (ℕ × List (List ℕ × Diagnostic))
audit_range git base head = do
  text ← git.rev_list base head
  violations ← audit_all git (present (split_on 10 text))
  some (length (present (split_on 10 text)), violations)

-- The argument behind a flag's first occurrence, or `none` where there is no such flag; one that is
-- missing is as falsy as the empty text.
abbrev pub first_or_empty : List (List ℕ) → List ℕ
first_or_empty [] = []
first_or_empty (arg ∷ args) = arg

unfoldable pub argument : List ℕ → List (List ℕ) → Option (List ℕ)
argument flag [] = none
argument flag (arg ∷ args) =
    if same_text arg flag then some (first_or_empty args) else argument flag args

-- "--single", "--base" and "--head".
abbrev pub single_flag : List ℕ
single_flag = 45 ∷ 45 ∷ 115 ∷ 105 ∷ 110 ∷ 103 ∷ 108 ∷ 101 ∷ []

abbrev pub base_flag : List ℕ
base_flag = 45 ∷ 45 ∷ 98 ∷ 97 ∷ 115 ∷ 101 ∷ []

abbrev pub head_flag : List ℕ
head_flag = 45 ∷ 45 ∷ 104 ∷ 101 ∷ 97 ∷ 100 ∷ []

abbrev pub has_none {ℓ} : {A : Type ℓ} → List A → Bool
has_none [] = true
has_none (a ∷ rest) = false

-- `main` with `--single`.
unfoldable pub main_single : Git → List ℕ → Option ℕ
main_single git sha =
    if is_empty sha
    then some 2
    else do diagnostics ← audit_commit git sha; some (if has_none diagnostics then 0 else 1)

-- `main` with a range.
unfoldable pub main_range : Git → Option (List ℕ) → Option (List ℕ) → Option ℕ
main_range git (some base) (some head) =
    if is_empty base || is_empty head
    then some 2
    else do result ← audit_range git base head; some (if has_none result.1 then 0 else 1)
main_range git _ _ = some 2

unfoldable pub main_with : Git → List (List ℕ) → Option (List ℕ) → Option ℕ
unfolding main_single main_range
main_with git args (some sha) = main_single git sha
main_with git args none = main_range git (argument base_flag args) (argument head_flag args)

-- `main`: the exit code, or `none` where it throws.
unfoldable pub main : Git → List (List ℕ) → Option ℕ
unfolding main_with
main git args = main_with git args (argument single_flag args)
