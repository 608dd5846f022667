-- ===== src/AllowList/Masks.antt =====
-- `matchCidr` of src/shared/ipAllowlist.js compares the first bits of two addresses.
use nodejs_wss_tunnel.Prelude.{
  ℕ, zero, suc, ◌+◌, ◌-◌, ◌*◌, ◌/◌, ◌%◌, ◌^◌, ◌≤◌, ◌<◌, ◌≡◌, refl, subst, inl, inr, ◌⊎◌, Bool, true,
  ◌&&◌, ◌==◌, Option, none, some, List, [], ◌∷◌, arith,
}
use nodejs_wss_tunnel.Prelude.Text.{includes, split_on}
use nodejs_wss_tunnel.AllowList.Numbers.{parse_int, Signed, octet, and_bits, octet-le}
use nodejs_wss_tunnel.AllowList.{
  second_part, in_range, of_parts, octets, compare_ranges, mask, same_network, ip_to_int,
  prefix_bits, range_of, match_cidr,
}

-- The number without its last `k` bits.
abbrev pub high_bits : ℕ → ℕ → ℕ
high_bits zero a = a
high_bits (suc k) a = high_bits k (a / 2)

-- `k` zeros behind a number.
abbrev shifted : ℕ → ℕ → ℕ
shifted zero a = a
shifted (suc k) a = 2 * shifted k a

abbrev ones : ℕ → ℕ
ones zero = 0
ones (suc w) = 1 + 2 * ones w

-- Of `w` bits, all but the last `k`.
abbrev mask_of : ℕ → ℕ → ℕ
mask_of w zero = ones w
mask_of zero (suc k) = 0
mask_of (suc w) (suc k) = 2 * mask_of w k

and_bits-ones : (w a : ℕ) → a < shifted w 1 → and_bits w a (ones w) ≡ a
unfolding and_bits
and_bits-ones zero a h = omega arith
and_bits-ones (suc w) a h =
    let half : (1 + 2 * ones w) / 2 ≡ ones w = omega arith in
    let odd : (1 + 2 * ones w) % 2 ≡ 1 = omega arith in
    let ih = and_bits-ones w (a / 2) (omega arith) in rw (half, odd, ih) (omega arith)

and_bits-mask :
    (w k a : ℕ) → k ≤ w → a < shifted w 1 → and_bits w a (mask_of w k) ≡ shifted k (high_bits k a)
unfolding and_bits
and_bits-mask w zero a k≤w h = and_bits-ones w a h
and_bits-mask zero (suc k) a k≤w h = absurd (omega arith)
and_bits-mask (suc w) (suc k) a k≤w h =
    let half : (2 * mask_of w k) / 2 ≡ mask_of w k = omega arith in
    let even : (2 * mask_of w k) % 2 ≡ 0 = omega arith in
    let ih = and_bits-mask w k (a / 2) (omega arith) (omega arith) in
    rw (half, even, ih) (omega arith)

shifted-== : (k a b : ℕ) → (shifted k a == shifted k b) ≡ (a == b)
shifted-== zero a b = refl
shifted-== (suc k) a b = ground (arith, shifted-== k a b)

-- A test that all the numbers up to `n` pass.
abbrev all_to : ℕ → (ℕ → Bool) → Bool
all_to zero test = test zero
all_to (suc n) test = test (suc n) && all_to n test

all_to-get : (n : ℕ) (test : ℕ → Bool) → all_to n test ≡ true → (k : ℕ) → k ≤ n → test k ≡ true
all_to-get zero test h k le = subst (λ i. test i ≡ true) (omega arith) h
all_to-get (suc n) test h k le = elim (last k le) [
  | inl e ↦ rw e (ground (arith, h))
  | inr lt ↦ all_to-get n test (ground (arith, h)) k lt
]
  where
    last : (k : ℕ) → k ≤ suc n → (k ≡ suc n) ⊎ (k ≤ n)
    last k le = ground arith

masks : all_to 32 (λ bits. mask bits == mask_of 32 (32 - bits)) ≡ true
unfolding mask
masks = refl

-- The masks of the source are those of bits.
mask-mask_of : (bits : ℕ) → bits ≤ 32 → mask bits ≡ mask_of 32 (32 - bits)
mask-mask_of bits le =
    ground (arith, all_to-get 32 (λ bits. mask bits == mask_of 32 (32 - bits)) masks bits le)

-- Two addresses of 32 bits are in one network of the source's masks exactly if their first bits are
-- the same.
same_network-high_bits :
    (bits ip range : ℕ)
    → bits ≤ 32
    → ip < 2 ^ 32
    → range < 2 ^ 32
    → same_network bits ip range ≡ (high_bits (32 - bits) ip == high_bits (32 - bits) range)
unfolding same_network
same_network-high_bits bits ip range le below below' =
    rw
      (
        mask-mask_of bits le,
        and_bits-mask 32 (32 - bits) ip (omega arith) below,
        and_bits-mask 32 (32 - bits) range (omega arith) below',
      )
      (shifted-== (32 - bits) _ _)

bytes-lt :
    (ip : ℕ) (a b c d : Option ℕ)
    → ((n : ℕ) → a ≡ some n → n ≤ 255)
    → ((n : ℕ) → b ≡ some n → n ≤ 255)
    → ((n : ℕ) → c ≡ some n → n ≤ 255)
    → ((n : ℕ) → d ≡ some n → n ≤ 255)
    → of_parts (a ∷ b ∷ c ∷ d ∷ []) ≡ some ip
    → ip < 2 ^ 32
unfolding of_parts
bytes-lt ip (some a) (some b) (some c) (some d) p q r s e =
    ground (arith, p a refl, q b refl, r c refl, s d refl)
bytes-lt ip _ _ _ _ p q r s e = ground arith

octets-lt : (parts : List (List ℕ)) (ip : ℕ) → of_parts (octets parts) ≡ some ip → ip < 2 ^ 32
unfolding of_parts octets
octets-lt (a ∷ b ∷ c ∷ d ∷ []) ip e =
    bytes-lt ip (octet a) (octet b) (octet c) (octet d) (octet-le a) (octet-le b) (octet-le c)
      (octet-le d) e
octets-lt _ ip e = ground arith

ip_to_int-lt : (text : List ℕ) (ip : ℕ) → ip_to_int text ≡ some ip → ip < 2 ^ 32
unfolding ip_to_int
ip_to_int-lt text ip e = octets-lt (split_on 46 text) ip e

prefix_bits-le : (cidr : List ℕ) (bits : ℕ) → prefix_bits cidr ≡ some bits → bits ≤ 32
unfolding prefix_bits in_range
prefix_bits-le cidr bits e = in_range-le (parse_int (second_part (split_on 47 cidr))) e
  where
    in_range-le : (n : Option Signed) → in_range n ≡ some bits → bits ≤ 32
    in_range-le none e = ground arith
    in_range-le (some n) e = ground arith

-- An address and an entry with a slash, whose prefix length and two addresses are well formed: the
-- entry matches exactly if the two addresses of 32 bits have the same first bits, as many as the
-- prefix length says.
pub match_cidr-high_bits :
    (ip cidr : List ℕ) (bits a b : ℕ)
    → includes 47 cidr ≡ true
    → prefix_bits cidr ≡ some bits
    → ip_to_int ip ≡ some a
    → range_of cidr ≡ some b
    → match_cidr ip cidr ≡ (high_bits (32 - bits) a == high_bits (32 - bits) b)
unfolding match_cidr compare_ranges range_of
match_cidr-high_bits ip cidr bits a b slash eb ea er =
    rw (slash, eb, ea, er)
      (same_network-high_bits bits a b (prefix_bits-le cidr bits eb) (ip_to_int-lt ip a ea)
        (ip_to_int-lt _ b er))
