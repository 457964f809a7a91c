-- ===== src/Routing/Prefix/Every.antt =====
-- The comparison at each prefix from 0 to 32, octet by octet.
use mathlib.Core.Path.{subst}
use edgar_vpn.Prelude.{
  ℕ, zero, suc, ◌+◌, ◌-◌, ◌^◌, ◌≤◌, ◌<◌, ◌≡◌, ◌↔◌, refl, true, arith, dec_lt, ℕ_discrete,
}
use edgar_vpn.Routing.{htonl, prefix_mask, matches}
use edgar_vpn.Routing.Prefix.{SamePrefix, Compares, prefix-Compares}

-- A claim at `n` and at the `k` numbers before it.
abbrev Down : (ℕ → Type 0) → ℕ → ℕ → Type 0
Down P n zero = P n
Down P n (suc k) = Down P (n - 1) k × P n

first_octet : Down Compares 8 7
unfolding prefix_mask
first_octet = (
  (
    (
      (
        (
          (
            (
              prefix-Compares 1 7 8 8 8 refl (omega arith)
                  (λ a n ha hn. ((λ h. omega arith), (λ h. omega arith))),
              prefix-Compares 2 6 8 8 8 refl (omega arith)
                  (λ a n ha hn. ((λ h. omega arith), (λ h. omega arith))),
            ),
            prefix-Compares 3 5 8 8 8 refl (omega arith)
                (λ a n ha hn. ((λ h. omega arith), (λ h. omega arith))),
          ),
          prefix-Compares 4 4 8 8 8 refl (omega arith)
              (λ a n ha hn. ((λ h. omega arith), (λ h. omega arith))),
        ),
        prefix-Compares 5 3 8 8 8 refl (omega arith)
            (λ a n ha hn. ((λ h. omega arith), (λ h. omega arith))),
      ),
      prefix-Compares 6 2 8 8 8 refl (omega arith)
          (λ a n ha hn. ((λ h. omega arith), (λ h. omega arith))),
    ),
    prefix-Compares 7 1 8 8 8 refl (omega arith)
        (λ a n ha hn. ((λ h. omega arith), (λ h. omega arith))),
  ),
  prefix-Compares 8 0 8 8 8 refl (omega arith)
      (λ a n ha hn. ((λ h. omega arith), (λ h. omega arith))),
)

second_octet : Down Compares 16 7
unfolding prefix_mask
second_octet = (
  (
    (
      (
        (
          (
            (
              prefix-Compares 9 0 7 8 8 refl (omega arith)
                  (λ a n ha hn. ((λ h. omega arith), (λ h. omega arith))),
              prefix-Compares 10 0 6 8 8 refl (omega arith)
                  (λ a n ha hn. ((λ h. omega arith), (λ h. omega arith))),
            ),
            prefix-Compares 11 0 5 8 8 refl (omega arith)
                (λ a n ha hn. ((λ h. omega arith), (λ h. omega arith))),
          ),
          prefix-Compares 12 0 4 8 8 refl (omega arith)
              (λ a n ha hn. ((λ h. omega arith), (λ h. omega arith))),
        ),
        prefix-Compares 13 0 3 8 8 refl (omega arith)
            (λ a n ha hn. ((λ h. omega arith), (λ h. omega arith))),
      ),
      prefix-Compares 14 0 2 8 8 refl (omega arith)
          (λ a n ha hn. ((λ h. omega arith), (λ h. omega arith))),
    ),
    prefix-Compares 15 0 1 8 8 refl (omega arith)
        (λ a n ha hn. ((λ h. omega arith), (λ h. omega arith))),
  ),
  prefix-Compares 16 0 0 8 8 refl (omega arith)
      (λ a n ha hn. ((λ h. omega arith), (λ h. omega arith))),
)

third_octet : Down Compares 24 7
unfolding prefix_mask
third_octet = (
  (
    (
      (
        (
          (
            (
              prefix-Compares 17 0 0 7 8 refl (omega arith)
                  (λ a n ha hn. ((λ h. omega arith), (λ h. omega arith))),
              prefix-Compares 18 0 0 6 8 refl (omega arith)
                  (λ a n ha hn. ((λ h. omega arith), (λ h. omega arith))),
            ),
            prefix-Compares 19 0 0 5 8 refl (omega arith)
                (λ a n ha hn. ((λ h. omega arith), (λ h. omega arith))),
          ),
          prefix-Compares 20 0 0 4 8 refl (omega arith)
              (λ a n ha hn. ((λ h. omega arith), (λ h. omega arith))),
        ),
        prefix-Compares 21 0 0 3 8 refl (omega arith)
            (λ a n ha hn. ((λ h. omega arith), (λ h. omega arith))),
      ),
      prefix-Compares 22 0 0 2 8 refl (omega arith)
          (λ a n ha hn. ((λ h. omega arith), (λ h. omega arith))),
    ),
    prefix-Compares 23 0 0 1 8 refl (omega arith)
        (λ a n ha hn. ((λ h. omega arith), (λ h. omega arith))),
  ),
  prefix-Compares 24 0 0 0 8 refl (omega arith)
      (λ a n ha hn. ((λ h. omega arith), (λ h. omega arith))),
)

fourth_octet : Down Compares 32 7
unfolding prefix_mask
fourth_octet = (
  (
    (
      (
        (
          (
            (
              prefix-Compares 25 0 0 0 7 refl (omega arith)
                  (λ a n ha hn. ((λ h. omega arith), (λ h. omega arith))),
              prefix-Compares 26 0 0 0 6 refl (omega arith)
                  (λ a n ha hn. ((λ h. omega arith), (λ h. omega arith))),
            ),
            prefix-Compares 27 0 0 0 5 refl (omega arith)
                (λ a n ha hn. ((λ h. omega arith), (λ h. omega arith))),
          ),
          prefix-Compares 28 0 0 0 4 refl (omega arith)
              (λ a n ha hn. ((λ h. omega arith), (λ h. omega arith))),
        ),
        prefix-Compares 29 0 0 0 3 refl (omega arith)
            (λ a n ha hn. ((λ h. omega arith), (λ h. omega arith))),
      ),
      prefix-Compares 30 0 0 0 2 refl (omega arith)
          (λ a n ha hn. ((λ h. omega arith), (λ h. omega arith))),
    ),
    prefix-Compares 31 0 0 0 1 refl (omega arith)
        (λ a n ha hn. ((λ h. omega arith), (λ h. omega arith))),
  ),
  prefix-Compares 32 0 0 0 0 refl (omega arith)
      (λ a n ha hn. ((λ h. omega arith), (λ h. omega arith))),
)

Down-at : (P : ℕ → Type 0) (n k p : ℕ) → Down P n k → n ≤ p + k → p ≤ n → P p
Down-at P n zero p d low high = subst P (omega arith) d
Down-at P n (suc k) p d low high = elim (ℕ_discrete n p) [
  | yes e ↦ subst P e d.1
  | no ne ↦ Down-at P (n - 1) k p d.0 (omega arith) (omega arith)
]

no_octet : Compares 0
no_octet =
    prefix-Compares 0 8 8 8 8 (unfold prefix_mask in refl) (omega arith)
      (λ a n ha hn. unfold htonl in ((λ h. omega arith), (λ h. omega arith)))

-- For every prefix length up to 32, `routing_matches` accepts an address exactly if its first
-- `prefix` bits, the first octet's highest bit being the first, are those of the network.
pub matches_iff :
    (prefix addr network : ℕ)
    → prefix ≤ 32
    → addr < 2 ^ 32
    → network < 2 ^ 32
    → (matches addr network prefix ≡ true) ↔ SamePrefix prefix addr network
matches_iff prefix addr network short ha hn = at addr network ha hn
  where
    at : Compares prefix
    at = elim (ℕ_discrete prefix 0) [
      | yes e ↦ subst Compares (omega arith) no_octet
      | no pos ↦ elim (dec_lt prefix 9) [
        | yes h ↦ Down-at Compares 8 7 prefix first_octet (omega arith) (omega arith)
        | no h1 ↦ elim (dec_lt prefix 17) [
          | yes h ↦ Down-at Compares 16 7 prefix second_octet (omega arith) (omega arith)
          | no h2 ↦ elim (dec_lt prefix 25) [
            | yes h ↦ Down-at Compares 24 7 prefix third_octet (omega arith) (omega arith)
            | no h3 ↦ Down-at Compares 32 7 prefix fourth_octet (omega arith) (omega arith)
          ]
        ]
      ]
    ]
