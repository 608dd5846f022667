-- ===== src/Prelude/Registry.antt =====
-- A map from ids to the places of objects that have these ids and are not cleaned up.
use Prim.Native.Nat.{ℕ}
use mathlib.Core.Path.{◌≡◌, subst, ◌∙◌}
use mathlib.Core.Logic.{inl, inr}
use mathlib.Core.Bool.{Bool, false}
use mathlib.Core.Option.{some}
use mathlib.Core.List.{List, [], ◌∷◌, ◌++◌}
use native.Mathlib.Omega.{arith}
use nodejs_wss_tunnel.Prelude.Tests.{◌==◌, ==_iff, Bool-cases}
use nodejs_wss_tunnel.Prelude.Lists.{
  length, get_elem?, set, get_elem?-set, get_elem?-append, get_elem?-append_length,
}
use nodejs_wss_tunnel.Prelude.Maps.{lookup, insert, remove, lookup-insert, lookup-remove}

module _ {A : Type 0} (id_of : A → ℕ) (is_cleaned : A → Bool) where
  -- Each entry of the map leads to an object with its id, which is not cleaned up.
  abbrev pub LeadsToLive : List A → List (ℕ × ℕ) → Type 0
  LeadsToLive heap m =
      (id r : ℕ)
      → lookup id m ≡ some r
      → (s : A) × (get_elem? heap r ≡ some s) × (id_of s ≡ id) × (is_cleaned s ≡ false)

  pub no_entry : LeadsToLive [] []
  unfolding lookup
  no_entry id r found = cc

  -- An object is written that keeps its id and its state.
  pub changed-LeadsToLive :
      (heap : List A) (m : List (ℕ × ℕ)) (r : ℕ) (s s' : A)
      → get_elem? heap r ≡ some s
      → id_of s' ≡ id_of s
      → is_cleaned s' ≡ is_cleaned s
      → LeadsToLive heap m
      → LeadsToLive (set heap r s') m
  changed-LeadsToLive heap m r s s' here same_id same_state h id i found =
      let (t, there, same, live) = h id i found in
      elim (get_elem?-set heap r i s s' here) [
        | inl (eq, now) ↦
            (s', now, ground (arith, here, there, same_id), ground (arith, here, there, same_state))
        | inr (_, kept) ↦ (t, kept ∙ there, same, live)
      ]

  -- An object is cleaned up, and its id is removed.
  pub ended-LeadsToLive :
      (heap : List A) (m : List (ℕ × ℕ)) (r : ℕ) (s s' : A)
      → get_elem? heap r ≡ some s
      → LeadsToLive heap m
      → LeadsToLive (set heap r s') (remove (id_of s) m)
  ended-LeadsToLive heap m r s s' here h id i found =
      let before : lookup id m ≡ some i = ground (arith, lookup-remove (id_of s) id m) in
      let (t, there, same, live) = h id i before in
      elim (get_elem?-set heap r i s s' here) [
        | inl (eq, now) ↦ absurd (ground (arith, here, there, lookup-remove (id_of s) id m, found))
        | inr (_, kept) ↦ (t, kept ∙ there, same, live)
      ]

  -- A live object is registered.
  pub added-LeadsToLive :
      (heap : List A) (m : List (ℕ × ℕ)) (s : A)
      → is_cleaned s ≡ false
      → LeadsToLive heap m
      → LeadsToLive (heap ++ s ∷ []) (insert (id_of s) (length heap) m)
  added-LeadsToLive heap m s live h id i found = elim (Bool-cases (id_of s == id)) [
    | inl same ↦
        let at : length heap ≡ i = ground (arith, lookup-insert (id_of s) id (length heap) m) in
        (
          s,
          subst (λ k. get_elem? (heap ++ s ∷ []) k ≡ some s) at (get_elem?-append_length heap s),
          (==_iff (id_of s) id).0 same,
          live,
        )
    | inr other ↦
        let before : lookup id m ≡ some i =
          ground (arith, lookup-insert (id_of s) id (length heap) m) in
        let (t, there, same, fresh) = h id i before in
        (t, get_elem?-append heap (s ∷ []) i t there, same, fresh)
  ]
