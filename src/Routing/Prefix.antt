-- ===== src/Routing/Prefix.antt =====
-- The masked comparison compares the leading bits of the two addresses, read as one usually
-- writes them, the first octet highest.
use edgar_vpn.Prelude.{
  ℕ, zero, suc, ◌+◌, ◌-◌, ◌*◌, ◌/◌, ◌%◌, ◌^◌, ◌≤◌, ◌<◌, bit_and, ◌≡◌, ◌↔◌, refl, Bool, true, arith,
  u32, ◌==◌, ==_iff, ap, sym, ◌∙◌,
}
pub mod Every
use native.Mathlib.Nat.{one-le-pow}
use edgar_vpn.Prelude.Bits.{holds_below, holds_below_lem, and_split}
use edgar_vpn.Routing.{htonl, prefix_mask, matches}

-- The address as a number whose highest octet is the first one: `ntohl(addr.s_addr)`.
abbrev pub host_order : ℕ → ℕ
host_order a = htonl a

-- `&` with a mask, octet by octet.
and_octets :
    (a b c d p q r s : ℕ)
    → a < 256
    → b < 256
    → c < 256
    → p < 256
    → q < 256
    → r < 256
    → bit_and
        (a + (b + (c + d * 2 ^ 8) * 2 ^ 8) * 2 ^ 8)
        (p + (q + (r + s * 2 ^ 8) * 2 ^ 8) * 2 ^ 8)
      ≡ bit_and a p + (bit_and b q + (bit_and c r + bit_and d s * 2 ^ 8) * 2 ^ 8) * 2 ^ 8
and_octets a b c d p q r s ha hb hc hp hq hr =
    rw
      (
        and_split 8 a p (b + (c + d * 2 ^ 8) * 2 ^ 8) (q + (r + s * 2 ^ 8) * 2 ^ 8) ha hp,
        and_split 8 b q (c + d * 2 ^ 8) (r + s * 2 ^ 8) hb hq,
        and_split 8 c r d s hc hr,
      )
      refl

-- The mask octet with `k` zeroes at the end.
octet_table :
    holds_below 9 (λ k. holds_below 256 (λ x. bit_and x (256 - 2 ^ k) == x / 2 ^ k * 2 ^ k)) ≡ true
unfolding holds_below
octet_table = refl

bit_and_octet : (k x : ℕ) → k < 9 → x < 256 → bit_and x (256 - 2 ^ k) ≡ x / 2 ^ k * 2 ^ k
bit_and_octet k x hk hx =
    (==_iff _ _).0 (holds_below_lem 256 _ (holds_below_lem 9 _ octet_table k hk) x hx)

-- Four octets, the first one lowest; a mask that clears the last `k` bits of each; and a number
-- with these bits cleared.
abbrev pub join : ℕ → ℕ → ℕ → ℕ → ℕ
join a b c d = a + (b + (c + d * 2 ^ 8) * 2 ^ 8) * 2 ^ 8

abbrev pub mask : ℕ → ℕ → ℕ → ℕ → ℕ
mask i j k l = join (256 - 2 ^ i) (256 - 2 ^ j) (256 - 2 ^ k) (256 - 2 ^ l)

abbrev pub kept : ℕ → ℕ → ℕ
kept x k = x / 2 ^ k * 2 ^ k

abbrev pub keep : ℕ → ℕ → ℕ → ℕ → ℕ → ℕ
keep x i j k l =
    join (kept (x % 2 ^ 8) i) (kept (x / 2 ^ 8 % 2 ^ 8) j) (kept (x / 2 ^ 16 % 2 ^ 8) k)
      (kept (x / 2 ^ 24) l)

octet_mask_lt : (k : ℕ) → 256 - 2 ^ k < 256
octet_mask_lt k = omega (arith, one-le-pow k 2 (omega arith))

join-mask :
    (a b c d i j k l : ℕ)
    → a < 256
    → b < 256
    → c < 256
    → d < 256
    → i < 9
    → j < 9
    → k < 9
    → l < 9
    → bit_and (join a b c d) (mask i j k l) ≡ join (kept a i) (kept b j) (kept c k) (kept d l)
join-mask a b c d i j k l ha hb hc hd hi hj hk hl =
    and_octets a b c d (256 - 2 ^ i) (256 - 2 ^ j) (256 - 2 ^ k) (256 - 2 ^ l) ha hb hc
      (octet_mask_lt i) (octet_mask_lt j) (octet_mask_lt k)
    ∙ rw
        (
          bit_and_octet i a hi ha,
          bit_and_octet j b hj hb,
          bit_and_octet k c hk hc,
          bit_and_octet l d hl hd,
        )
        refl

bit_and-mask :
    (x i j k l : ℕ)
    → x < 2 ^ 32
    → i < 9
    → j < 9
    → k < 9
    → l < 9
    → bit_and x (mask i j k l) ≡ keep x i j k l
bit_and-mask x i j k l hx hi hj hk hl =
    let e : x ≡ join (x % 2 ^ 8) (x / 2 ^ 8 % 2 ^ 8) (x / 2 ^ 16 % 2 ^ 8) (x / 2 ^ 24) =
      omega arith in
    ap (λ y. bit_and y (mask i j k l)) e
    ∙ join-mask (x % 2 ^ 8) (x / 2 ^ 8 % 2 ^ 8) (x / 2 ^ 16 % 2 ^ 8) (x / 2 ^ 24) i j k l
        (omega arith) (omega arith) (omega arith) (omega arith) hi hj hk hl

-- The two addresses have the same first `p` bits.
abbrev pub SamePrefix : ℕ → ℕ → ℕ → Type 0
SamePrefix p a n = host_order a / 2 ^ (32 - p) ≡ host_order n / 2 ^ (32 - p)

abbrev pub Compares : ℕ → Type 0
Compares p = (a n : ℕ) → a < 2 ^ 32 → n < 2 ^ 32 → (matches a n p ≡ true) ↔ SamePrefix p a n

-- From the cleared octets to the leading bits, for one prefix.
pub prefix-Compares :
    (p i j k l : ℕ)
    → prefix_mask p ≡ mask i j k l
    → (i < 9) × (j < 9) × (k < 9) × (l < 9)
    → ((a n : ℕ) → a < 2 ^ 32 → n < 2 ^ 32 → (keep a i j k l ≡ keep n i j k l) ↔ SamePrefix p a n)
    → Compares p
prefix-Compares p i j k l e (hi, hj, hk, hl) same a n ha hn =
    let mask_a = ap (bit_and a) e ∙ bit_and-mask a i j k l ha hi hj hk hl in
    let mask_n = ap (bit_and n) e ∙ bit_and-mask n i j k l hn hi hj hk hl in
    let tested = ==_iff (bit_and a (prefix_mask p)) (bit_and n (prefix_mask p)) in
    (
      (λ h. (same a n ha hn).0 (sym mask_a ∙ tested.0 (unfold matches in h) ∙ mask_n)),
      (λ h. unfold matches in tested.1 (mask_a ∙ (same a n ha hn).1 h ∙ sym mask_n)),
    )
