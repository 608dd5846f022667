-- ===== src/CommitAudit/Subjects.antt =====
-- The subjects that SUBJECT_PATTERN of scripts/audit-commits.js matches.
use nodejs_wss_tunnel.Prelude.{
  ℕ, ◌≡◌, refl, sym, ap, subst, ◌∙◌, ◌↔◌, inl, inr, Bool, true, false, Bool-cases, ◌&&◌, ◌||◌,
  Option, none, some, List, [], ◌∷◌, ◌++◌, arith, All, ◌==◌, ==_iff, append_assoc,
}
use nodejs_wss_tunnel.Prelude.Text.{same_text, includes_text}
use nodejs_wss_tunnel.Prelude.Split.{same_text_refl, same_text-≡}
use nodejs_wss_tunnel.CommitAudit.{
  is_dot, all_dots, is_description, is_end, is_scope_char, closes_scope, after_type, behind,
  has_type,
}

-- A scope in parentheses, or none, and an exclamation mark, or none.
abbrev pub scope_text : Option (List ℕ) → List ℕ
scope_text none = []
scope_text (some scope) = 40 ∷ (scope ++ 41 ∷ [])

abbrev pub mark_text : Bool → List ℕ
mark_text false = []
mark_text true = 33 ∷ []

abbrev pub IsScope : Option (List ℕ) → Type 0
IsScope none = Unit
IsScope (some []) = ⊥
IsScope (some (c ∷ s)) = All (λ d. is_scope_char d ≡ true) (c ∷ s)

-- What stands behind the type: the scope, the mark, a colon and a blank, and a description of at
-- least one character and one line.
pub record IsRest (s : List ℕ) : Type 0 where
  pub scope : Option (List ℕ)
  pub marked : Bool
  pub first : ℕ
  pub description : List ℕ
  pub text : s ≡ scope_text scope ++ (mark_text marked ++ 58 ∷ 32 ∷ first ∷ description)
  pub is_scope : IsScope scope
  pub one_line : All (λ c. is_dot c ≡ true) (first ∷ description)

all_dots-All : (s : List ℕ) → all_dots s ≡ true → All (λ c. is_dot c ≡ true) s
all_dots-All [] h = tt
all_dots-All (c ∷ s) h = (ground (arith, h), all_dots-All s (ground (arith, h)))

All-all_dots : (s : List ℕ) → All (λ c. is_dot c ≡ true) s → all_dots s ≡ true
All-all_dots [] h = refl
All-all_dots (c ∷ s) (h, hs) = ground (arith, h, All-all_dots s hs)

-- A mark and a description.
record IsEnd (s : List ℕ) : Type 0 where
  pub marked : Bool
  pub first : ℕ
  pub description : List ℕ
  pub text : s ≡ mark_text marked ++ 58 ∷ 32 ∷ first ∷ description
  pub one_line : All (λ c. is_dot c ≡ true) (first ∷ description)

description-IsEnd : (s : List ℕ) → is_description s ≡ true → IsEnd s
description-IsEnd (c ∷ d ∷ e ∷ s) h = record {
  marked = false;
  first = e;
  description = s;
  text = ground (arith, h);
  one_line = all_dots-All (e ∷ s) (ground (arith, h));
}
description-IsEnd (c ∷ d ∷ []) h = ground (arith, h)
description-IsEnd (c ∷ []) h = ground (arith, h)
description-IsEnd [] h = ground (arith, h)

is_end-IsEnd : (s : List ℕ) → is_end s ≡ true → IsEnd s
is_end-IsEnd [] h = ground (arith, h)
is_end-IsEnd (c ∷ s) h = elim (Bool-cases (c == 33 && is_description s)) [
  | inl marked ↦
      let e = description-IsEnd s (ground (arith, marked)) in
      record {
        marked = true;
        first = e.first;
        description = e.description;
        text =
            unmarked s e.marked e.first e.description e.text (ground (arith, marked))
              (ground (arith, marked));
        one_line = e.one_line;
      }
  | inr plain ↦ description-IsEnd (c ∷ s) (ground (arith, h, plain))
]
  where
    unmarked :
        (s : List ℕ) (marked : Bool) (first : ℕ) (description : List ℕ)
        → s ≡ mark_text marked ++ 58 ∷ 32 ∷ first ∷ description
        → is_description s ≡ true
        → c ≡ 33
        → c ∷ s ≡ 33 ∷ 58 ∷ 32 ∷ first ∷ description
    unmarked s false first description e h is = ground (arith, e, is)
    unmarked s true first description e h is =
        absurd (ground (arith, subst (λ t. is_description t ≡ true) e h))

IsEnd-end : (s : List ℕ) → IsEnd s → is_end s ≡ true
IsEnd-end s e =
    subst (λ t. is_end t ≡ true) (sym e.text)
      (ended e.marked e.first e.description (All-all_dots (e.first ∷ e.description) e.one_line))
  where
    ended :
        (marked : Bool) (first : ℕ) (description : List ℕ)
        → all_dots (first ∷ description) ≡ true
        → is_end (mark_text marked ++ 58 ∷ 32 ∷ first ∷ description) ≡ true
    ended false first description h = ground (arith, h)
    ended true first description h = ground (arith, h)

-- The rest of a scope, its parenthesis and the end.
record IsClosed (s : List ℕ) : Type 0 where
  pub scope : List ℕ
  pub rest : List ℕ
  pub text : s ≡ scope ++ 41 ∷ rest
  pub is_scope : All (λ c. is_scope_char c ≡ true) scope
  pub is_end_of : IsEnd rest

closes_scope-IsClosed : (s : List ℕ) → closes_scope s ≡ true → IsClosed s
unfolding closes_scope
closes_scope-IsClosed [] h = ground (arith, h)
closes_scope-IsClosed (c ∷ s) h = elim (Bool-cases (is_scope_char c)) [
  | inl inside ↦
      let k = closes_scope-IsClosed s (ground (arith, h, inside)) in
      record {
        scope = c ∷ k.scope;
        rest = k.rest;
        text = ap (λ t. c ∷ t) k.text;
        is_scope = (inside, k.is_scope);
        is_end_of = k.is_end_of;
      }
  | inr outside ↦ record {
    scope = [];
    rest = s;
    text = ap (λ d. d ∷ s) ((==_iff c 41).0 (ground (arith, h, outside)));
    is_scope = tt;
    is_end_of = is_end-IsEnd s (ground (arith, h, outside));
  }
]

closed :
    (scope rest : List ℕ)
    → All (λ c. is_scope_char c ≡ true) scope
    → is_end rest ≡ true
    → closes_scope (scope ++ 41 ∷ rest) ≡ true
unfolding closes_scope
closed [] rest all h = ground (arith, h)
closed (c ∷ scope) rest (inside, all) h = ground (arith, inside, closed scope rest all h)

unscoped-IsRest : (s : List ℕ) → IsEnd s → IsRest s
unscoped-IsRest s e = record {
  scope = none;
  marked = e.marked;
  first = e.first;
  description = e.description;
  text = e.text;
  is_scope = tt;
  one_line = e.one_line;
}

scoped-IsRest :
    (c d : ℕ) (s : List ℕ) → c ≡ 40 → is_scope_char d ≡ true → IsClosed s → IsRest (c ∷ d ∷ s)
scoped-IsRest c d s open_at inside k =
    let e = k.is_end_of in
    record {
      scope = some (d ∷ k.scope);
      marked = e.marked;
      first = e.first;
      description = e.description;
      text =
          ap (λ b. b ∷ d ∷ s) open_at
          ∙ ap (λ t. 40 ∷ d ∷ t)
              (k.text
                ∙ ap (λ t. k.scope ++ 41 ∷ t) e.text
                ∙ sym (
                    append_assoc k.scope (41 ∷ [])
                      (mark_text e.marked ++ 58 ∷ 32 ∷ e.first ∷ e.description)));
      is_scope = (inside, k.is_scope);
      one_line = e.one_line;
    }

after_type-IsRest : (s : List ℕ) → after_type s ≡ true → IsRest s
unfolding after_type
after_type-IsRest [] h = unscoped-IsRest [] (is_end-IsEnd [] h)
after_type-IsRest (c ∷ []) h = unscoped-IsRest (c ∷ []) (is_end-IsEnd (c ∷ []) h)
after_type-IsRest (c ∷ d ∷ s) h = elim (Bool-cases (c == 40 && is_scope_char d && closes_scope s)) [
  | inl scoped ↦
      scoped-IsRest c d s ((==_iff c 40).0 (ground (arith, scoped))) (ground (arith, scoped))
        (closes_scope-IsClosed s (ground (arith, scoped)))
  | inr plain ↦ unscoped-IsRest (c ∷ d ∷ s) (is_end-IsEnd (c ∷ d ∷ s) (ground (arith, h, plain)))
]

-- A text of this shape matches.
rested :
    (scope : Option (List ℕ)) (marked : Bool) (first : ℕ) (description : List ℕ)
    → IsScope scope
    → All (λ c. is_dot c ≡ true) (first ∷ description)
    → after_type (scope_text scope ++ (mark_text marked ++ 58 ∷ 32 ∷ first ∷ description)) ≡ true
unfolding after_type
rested none false first description is_scope dots =
    ground (arith, All-all_dots (first ∷ description) dots)
rested none true first description is_scope dots =
    ground (arith, All-all_dots (first ∷ description) dots)
rested (some []) marked first description is_scope dots = absurd is_scope
rested (some (d ∷ scope)) marked first description (inside, all) dots =
    let rest = mark_text marked ++ 58 ∷ 32 ∷ first ∷ description in
    let is : is_end rest ≡ true = IsEnd-end rest (record {
      marked = marked;
      first = first;
      description = description;
      text = refl;
      one_line = dots;
    }) in
    subst (λ t. after_type (40 ∷ d ∷ t) ≡ true) (sym (append_assoc scope (41 ∷ []) rest))
      (behind_scope d scope rest inside (closed scope rest all is))
  where
    behind_scope :
        (d : ℕ) (scope rest : List ℕ)
        → is_scope_char d ≡ true
        → closes_scope (scope ++ 41 ∷ rest) ≡ true
        → after_type (40 ∷ d ∷ (scope ++ 41 ∷ rest)) ≡ true
    behind_scope d scope rest inside h = ground (arith, inside, h)

IsRest-after_type : (s : List ℕ) → IsRest s → after_type s ≡ true
IsRest-after_type s r =
    subst (λ t. after_type t ≡ true) (sym r.text)
      (rested r.scope r.marked r.first r.description r.is_scope r.one_line)

-- A type of the list, and the rest.
pub record IsConventional (ts : List (List ℕ)) (subject : List ℕ) : Type 0 where
  pub type : List ℕ
  pub rest : List ℕ
  pub is_type : includes_text type ts ≡ true
  pub text : subject ≡ type ++ rest
  pub is_rest : IsRest rest

module _ (test : List ℕ → Bool) where
  behind-text :
      (prefix s : List ℕ)
      → behind prefix test s ≡ true
      → (rest : List ℕ) × (s ≡ prefix ++ rest) × (test rest ≡ true)
  unfolding behind
  behind-text [] s h = (s, refl, h)
  behind-text (p ∷ prefix) [] h = ground (arith, h)
  behind-text (p ∷ prefix) (c ∷ s) h =
      let (rest, same, good) = behind-text prefix s (ground (arith, h)) in
      (rest, ground (arith, h, same), good)

  text-behind :
      (prefix rest : List ℕ) → test rest ≡ true → behind prefix test (prefix ++ rest) ≡ true
  unfolding behind
  text-behind [] rest h = h
  text-behind (p ∷ prefix) rest h = ground (arith, text-behind prefix rest h)

has_type-IsConventional :
    (ts : List (List ℕ)) (s : List ℕ) → has_type ts s ≡ true → IsConventional ts s
unfolding has_type
has_type-IsConventional [] s h = ground (arith, h)
has_type-IsConventional (type ∷ ts) s h = elim (Bool-cases (behind type after_type s)) [
  | inl here ↦
      let (rest, same, good) = behind-text after_type type s here in
      record {
        type = type;
        rest = rest;
        is_type = ground (arith, same_text_refl type);
        text = same;
        is_rest = after_type-IsRest rest good;
      }
  | inr other ↦
      let k = has_type-IsConventional ts s (ground (arith, h, other)) in
      record {
        type = k.type;
        rest = k.rest;
        is_type = ground (arith, k.is_type);
        text = k.text;
        is_rest = k.is_rest;
      }
]

typed :
    (ts : List (List ℕ)) (type rest : List ℕ)
    → includes_text type ts ≡ true
    → after_type rest ≡ true
    → has_type ts (type ++ rest) ≡ true
unfolding has_type
typed [] type rest there h = ground (arith, there)
typed (t ∷ ts) type rest there h = elim (Bool-cases (same_text t type)) [
  | inl same ↦
      subst (λ p. behind p after_type (type ++ rest) || has_type ts (type ++ rest) ≡ true)
        (sym (same_text-≡ t type same)) (ground (arith, text-behind after_type type rest h))
  | inr other ↦ ground (arith, typed ts type rest (ground (arith, there, other)) h)
]

-- A subject is in the pattern exactly if it is a type of the list, a scope of small letters, digits
-- and dashes in parentheses or none, an exclamation mark or none, a colon and a blank, and a
-- description of at least one character and one line.
pub has_type_iff : (ts : List (List ℕ)) (s : List ℕ) → (has_type ts s ≡ true) ↔ IsConventional ts s
has_type_iff ts s = (
  has_type-IsConventional ts s,
  λ k.
      subst (λ t. has_type ts t ≡ true) (sym k.text)
        (typed ts k.type k.rest k.is_type (IsRest-after_type k.rest k.is_rest)),
)
