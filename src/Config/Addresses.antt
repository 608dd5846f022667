-- ===== src/Config/Addresses.antt =====
-- The lists of addresses that src/shared/config.js reads.
use nodejs_wss_tunnel.Prelude.{
  ℕ, ◌≡◌, refl, subst, ◌⊎◌, inl, inr, Bool-cases, Bool, true, false, not, ◌&&◌, Option,
  Option-cases, none, some, List, [], ◌∷◌, ◌++◌, arith, All, All-append,
}
use nodejs_wss_tunnel.Prelude.Text.{is_empty, trim, split_on, same_text, includes_text}
use nodejs_wss_tunnel.AllowList.{is_valid_ip_or_cidr}
use nodejs_wss_tunnel.Config.{next_ip, read_ips, read_ip_list}

-- A list of valid entries without repetitions, or a throw.
abbrev pub is_distinct : List (List ℕ) → Bool
is_distinct [] = true
is_distinct (e ∷ es) = not (includes_text e es) && is_distinct es

abbrev pub IsIpList : Option (List (List ℕ)) → Type 0
IsIpList none = Unit
IsIpList (some es) = All (λ e. is_valid_ip_or_cidr e ≡ true) es × (is_distinct es ≡ true)

same_text_comm : (s t : List ℕ) → same_text s t ≡ same_text t s
same_text_comm [] [] = refl
same_text_comm [] (d ∷ t) = refl
same_text_comm (c ∷ s) [] = refl
same_text_comm (c ∷ s) (d ∷ t) = ground (arith, same_text_comm s t)

includes_text-append :
    (e t : List ℕ) (es : List (List ℕ))
    → same_text t e ≡ false
    → includes_text e es ≡ false
    → includes_text e (es ++ t ∷ []) ≡ false
includes_text-append e t [] n h = ground (arith, n)
includes_text-append e t (f ∷ es) n h = ground (arith, includes_text-append e t es, n)

append_distinct :
    (t : List ℕ) (es : List (List ℕ))
    → includes_text t es ≡ false
    → is_distinct es ≡ true
    → is_distinct (es ++ t ∷ []) ≡ true
append_distinct t [] n h = refl
append_distinct t (e ∷ es) n h =
    ground (arith, append_distinct t es, includes_text-append e t es, same_text_comm t e)

next_ip-cases :
    (entries : List (List ℕ)) (token : List ℕ) (es : List (List ℕ))
    → next_ip (some entries) token ≡ some es
    → (entries ≡ es)
      ⊎ ((entries ++ token ∷ [] ≡ es)
          × (is_valid_ip_or_cidr token ≡ true)
          × (includes_text token entries ≡ false))
unfolding next_ip
next_ip-cases entries token es e = ground arith

next_ip-none : (token : List ℕ) → next_ip none token ≡ none
unfolding next_ip
next_ip-none token = refl

next_ip-IsIpList :
    (entries : Option (List (List ℕ))) (token : List ℕ)
    → IsIpList entries
    → IsIpList (next_ip entries token)
next_ip-IsIpList none token h = rw (next_ip-none token) tt
next_ip-IsIpList (some entries) token (valid, distinct) =
    elim (Option-cases (next_ip (some entries) token)) [
      | inl e ↦ rw e tt
      | inr (es, e) ↦ rw e (elim (next_ip-cases entries token es e) [
        | inl same ↦ subst (λ l. IsIpList (some l)) same (valid, distinct)
        | inr (same, good, fresh) ↦
            subst (λ l. IsIpList (some l)) same
              (
                All-append (λ t. is_valid_ip_or_cidr t ≡ true) entries (token ∷ []) valid
                    (good, tt),
                append_distinct token entries fresh distinct,
              )
      ])
    ]

read_ips-IsIpList :
    (tokens : List (List ℕ)) (entries : Option (List (List ℕ)))
    → IsIpList entries
    → IsIpList (read_ips entries tokens)
unfolding read_ips
read_ips-IsIpList [] entries h = h
read_ips-IsIpList (raw ∷ tokens) entries h =
    read_ips-IsIpList tokens (next_ip entries (trim raw)) (next_ip-IsIpList entries (trim raw) h)

-- Any list that `readIpList` returns has entries that `isValidIpOrCidr` accepts, all different.
pub read_ip_list-IsIpList : (raw : List ℕ) → IsIpList (read_ip_list raw)
unfolding read_ip_list
read_ip_list-IsIpList raw = elim (Bool-cases (is_empty raw)) [
  | inl e ↦ rw e (tt, refl)
  | inr e ↦ rw e (read_ips-IsIpList (split_on 44 raw) (some []) (tt, refl))
]
