-- ===== src/Probe/Digits.antt =====
-- DEC and HEX of CMakeCCompilerId.c.
use m_rpc.Prelude.{
  ℕ, ◌+◌, ◌-◌, ◌*◌, ◌/◌, ◌%◌, ◌^◌, ◌≡◌, refl, ap, ◌∙◌, List, [], ◌∷◌, map, length, arith,
}
use m_rpc.Endian.{Bytes}
use m_rpc.Probe.{dec, hex}

-- The number that digits stand for; a digit is a code from '0' on.
pub number : ℕ → ℕ → Bytes → ℕ
number base acc [] = acc
number base acc (d ∷ ds) = number base (acc * base + (d - 48)) ds

-- The same for digits that are numbers.
plain : ℕ → ℕ → List ℕ → ℕ
plain base acc [] = acc
plain base acc (d ∷ ds) = plain base (acc * base + d) ds

number-plain :
    (base acc : ℕ) (ds : List ℕ) → number base acc (map (λ d. 48 + d) ds) ≡ plain base acc ds
unfolding number plain
number-plain base acc [] = refl
number-plain base acc (d ∷ ds) =
    ap (λ x. number base (acc * base + x) (map (λ d. 48 + d) ds)) (omega arith)
    ∙ number-plain base (acc * base + d) ds

next_digit :
    (base acc d to : ℕ) (ds : List ℕ)
    → acc * base + d ≡ to
    → plain base acc (d ∷ ds) ≡ plain base to ds
unfolding plain
next_digit base acc d to ds e = ap (λ a. plain base a ds) e

plain-dec :
    (n : ℕ)
    → plain 10 0 (
        n / 10000000 % 10
        ∷ n / 1000000 % 10
        ∷ n / 100000 % 10
        ∷ n / 10000 % 10
        ∷ n / 1000 % 10
        ∷ n / 100 % 10
        ∷ n / 10 % 10
        ∷ n % 10
        ∷ [])
      ≡ n % 100000000
unfolding plain
plain-dec n =
    let r1 : List ℕ = (n % 10) ∷ [] in
    let r2 : List ℕ = (n / 10 % 10) ∷ r1 in
    let r3 : List ℕ = (n / 100 % 10) ∷ r2 in
    let r4 : List ℕ = (n / 1000 % 10) ∷ r3 in
    let r5 : List ℕ = (n / 10000 % 10) ∷ r4 in
    let r6 : List ℕ = (n / 100000 % 10) ∷ r5 in
    let r7 : List ℕ = (n / 1000000 % 10) ∷ r6 in
    next_digit 10 (0) (n / 10000000 % 10) (n / 10000000 % 10) r7 (omega arith)
    ∙ next_digit 10 (n / 10000000 % 10) (n / 1000000 % 10) (n / 1000000 % 100) r6 (omega arith)
    ∙ next_digit 10 (n / 1000000 % 100) (n / 100000 % 10) (n / 100000 % 1000) r5 (omega arith)
    ∙ next_digit 10 (n / 100000 % 1000) (n / 10000 % 10) (n / 10000 % 10000) r4 (omega arith)
    ∙ next_digit 10 (n / 10000 % 10000) (n / 1000 % 10) (n / 1000 % 100000) r3 (omega arith)
    ∙ next_digit 10 (n / 1000 % 100000) (n / 100 % 10) (n / 100 % 1000000) r2 (omega arith)
    ∙ next_digit 10 (n / 100 % 1000000) (n / 10 % 10) (n / 10 % 10000000) r1 (omega arith)
    ∙ next_digit 10 (n / 10 % 10000000) (n % 10) (n % 100000000) [] (omega arith)

plain-hex :
    (n : ℕ)
    → plain 16 0 (
        n / 268435456 % 16
        ∷ n / 16777216 % 16
        ∷ n / 1048576 % 16
        ∷ n / 65536 % 16
        ∷ n / 4096 % 16
        ∷ n / 256 % 16
        ∷ n / 16 % 16
        ∷ n % 16
        ∷ [])
      ≡ n % 4294967296
unfolding plain
plain-hex n =
    let r1 : List ℕ = (n % 16) ∷ [] in
    let r2 : List ℕ = (n / 16 % 16) ∷ r1 in
    let r3 : List ℕ = (n / 256 % 16) ∷ r2 in
    let r4 : List ℕ = (n / 4096 % 16) ∷ r3 in
    let r5 : List ℕ = (n / 65536 % 16) ∷ r4 in
    let r6 : List ℕ = (n / 1048576 % 16) ∷ r5 in
    let r7 : List ℕ = (n / 16777216 % 16) ∷ r6 in
    next_digit 16 (0) (n / 268435456 % 16) (n / 268435456 % 16) r7 (omega arith)
    ∙ next_digit 16 (n / 268435456 % 16) (n / 16777216 % 16) (n / 16777216 % 256) r6 (omega arith)
    ∙ next_digit 16 (n / 16777216 % 256) (n / 1048576 % 16) (n / 1048576 % 4096) r5 (omega arith)
    ∙ next_digit 16 (n / 1048576 % 4096) (n / 65536 % 16) (n / 65536 % 65536) r4 (omega arith)
    ∙ next_digit 16 (n / 65536 % 65536) (n / 4096 % 16) (n / 4096 % 1048576) r3 (omega arith)
    ∙ next_digit 16 (n / 4096 % 1048576) (n / 256 % 16) (n / 256 % 16777216) r2 (omega arith)
    ∙ next_digit 16 (n / 256 % 16777216) (n / 16 % 16) (n / 16 % 268435456) r1 (omega arith)
    ∙ next_digit 16 (n / 16 % 268435456) (n % 16) (n % 4294967296) [] (omega arith)

-- DEC gives the eight last decimal digits of a number and HEX its eight last hexadecimal digits, each
-- as one code from '0' on, so that the number can be read off.
pub number-dec :
    (n : ℕ)
    → (number 10 0 (dec n) ≡ n % 10 ^ 8)
      × (length (dec n) ≡ 8)
      × (number 16 0 (hex n) ≡ n % 2 ^ 32)
      × (length (hex n) ≡ 8)
unfolding dec hex
number-dec n = (
  number-plain 10 0 (_ ∷ _ ∷ _ ∷ _ ∷ _ ∷ _ ∷ _ ∷ _ ∷ []) ∙ plain-dec n,
  refl,
  number-plain 16 0 (_ ∷ _ ∷ _ ∷ _ ∷ _ ∷ _ ∷ _ ∷ _ ∷ []) ∙ plain-hex n,
  refl,
)
