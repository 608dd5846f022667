-- ===== src/Prelude/Split.antt =====
-- Equal texts, and texts that are split in two.
use Prim.Native.Nat.{ℕ}
use mathlib.Core.Path.{◌≡◌, refl, sym, ap, subst, ◌∙◌}
use mathlib.Core.Logic.{◌≢◌, inl, inr}
use mathlib.Core.Bool.{Bool, true, false}
use mathlib.Core.List.{List, [], ◌∷◌, ◌++◌}
use native.Mathlib.Omega.{arith}
use nodejs_wss_tunnel.Prelude.Tests.{Bool-cases, ◌==◌, if◌then◌else◌}
use nodejs_wss_tunnel.Prelude.Lists.{All}
use nodejs_wss_tunnel.Prelude.Text.{same_text, includes, begin_with, split_on}

pub same_text-≡ : (s t : List ℕ) → same_text s t ≡ true → s ≡ t
same_text-≡ [] [] h = refl
same_text-≡ [] (d ∷ t) h = ground arith
same_text-≡ (c ∷ s) [] h = ground arith
same_text-≡ (c ∷ s) (d ∷ t) h = ground (arith, same_text-≡ s t)

pub same_text_refl : (s : List ℕ) → same_text s s ≡ true
same_text_refl [] = refl
same_text_refl (c ∷ s) = ground (arith, same_text_refl s)

pub same_text-≢ : (s t : List ℕ) → same_text s t ≡ false → s ≢ t
same_text-≢ s t n e = absurd (ground (arith, ap (same_text s) e, same_text_refl s))

pub ≢→same_text : (s t : List ℕ) → s ≢ t → same_text s t ≡ false
≢→same_text s t n = elim (Bool-cases (same_text s t)) [
  | inl e ↦ absurd (n (same_text-≡ s t e))
  | inr e ↦ e
]

-- The text that has these parts.
abbrev join : ℕ → List (List ℕ) → List ℕ
join sep [] = []
join sep (a ∷ []) = a
join sep (a ∷ b ∷ parts) = a ++ sep ∷ join sep (b ∷ parts)

join-begin_with :
    (sep c : ℕ) (parts : List (List ℕ)) → join sep (begin_with c parts) ≡ c ∷ join sep parts
join-begin_with sep c [] = refl
join-begin_with sep c (a ∷ []) = refl
join-begin_with sep c (a ∷ b ∷ parts) = refl

split_on-some :
    (sep : ℕ) (s : List ℕ) → (a : List ℕ) × (parts : List (List ℕ)) × (split_on sep s ≡ a ∷ parts)
unfolding split_on
split_on-some sep [] = ([], [], refl)
split_on-some sep (c ∷ s) = begun (c == sep) (split_on sep s)
  where
    begun :
        (here : Bool) (parts : List (List ℕ))
        → (a : List ℕ) × (rest : List (List ℕ)) × ((if here then [] ∷ parts else begin_with c parts)
            ≡ a ∷ rest)
    begun true parts = ([], parts, refl)
    begun false [] = (c ∷ [], [], refl)
    begun false (a ∷ parts) = (c ∷ a, parts, refl)

pub join-split_on : (sep : ℕ) (s : List ℕ) → join sep (split_on sep s) ≡ s
unfolding split_on
join-split_on sep [] = refl
join-split_on sep (c ∷ s) =
    let (a, parts, e) = split_on-some sep s in
    ground (arith, e, join-split_on sep s, join-begin_with sep c (split_on sep s))

pub All-split_on : (sep : ℕ) (s : List ℕ) → All (λ a. includes sep a ≡ false) (split_on sep s)
unfolding split_on
All-split_on sep [] = (refl, tt)
All-split_on sep (c ∷ s) = elim (Bool-cases (c == sep)) [
  | inl e ↦ rw e (refl, All-split_on sep s)
  | inr n ↦ rw n (begun n (split_on sep s) (All-split_on sep s))
]
  where
    begun :
        (c == sep) ≡ false
        → (parts : List (List ℕ)) → All (λ a. includes sep a ≡ false) parts
        → All (λ a. includes sep a ≡ false) (begin_with c parts)
    begun n [] h = (rw n refl, tt)
    begun n (a ∷ parts) (h, hs) = (rw n h, hs)

-- A text with two parts.
pub split_on-two :
    (sep : ℕ) (s a b : List ℕ)
    → split_on sep s ≡ a ∷ b ∷ []
    → (s ≡ a ++ sep ∷ b) × (includes sep a ≡ false) × (includes sep b ≡ false)
split_on-two sep s a b e =
    let (no_a, (no_b, rest)) = subst (All (λ t. includes sep t ≡ false)) e (All-split_on sep s) in
    (sym (join-split_on sep s) ∙ ap (join sep) e, no_a, no_b)

pub split_on-whole : (sep : ℕ) (s : List ℕ) → includes sep s ≡ false → split_on sep s ≡ s ∷ []
unfolding split_on
split_on-whole sep [] h = refl
split_on-whole sep (c ∷ s) h = ground (arith, split_on-whole sep s)

pub split_on-append :
    (sep : ℕ) (a b : List ℕ)
    → includes sep a ≡ false
    → includes sep b ≡ false
    → split_on sep (a ++ sep ∷ b) ≡ a ∷ b ∷ []
unfolding split_on
split_on-append sep [] b h k = ground (arith, split_on-whole sep b)
split_on-append sep (c ∷ a) b h k = ground (arith, split_on-append sep a b)
