-- ===== src/Probe.antt =====
-- build/CMakeFiles/3.10.2/CompilerIdC/CMakeCCompilerId.c: the program of the repository's build
-- directory that tells by which compiler, and for which platform, it is compiled.
pub mod Vendors
pub mod Compilers
pub mod Platforms
pub mod Output
pub mod Digits
pub mod Reading
pub mod CxxVendors
pub mod Cxx
pub mod Twins
mod Examples
use Prim.Native.String.{String}
use m_rpc.Prelude.{
  ℕ, ◌+◌, ◌-◌, ◌*◌, ◌/◌, ◌%◌, ◌^◌, Bool, true, false, Option, none, some, List, [], ◌∷◌, ltb,
  if◌then◌else◌,
}
use m_rpc.Endian.{Bytes}

-- The macros that the compiler defines, as numbers; what is defined as no number counts as 1.
abbrev pub Macros : Type 0
Macros = String → Option ℕ

abbrev pub defined : Macros → String → Bool
defined m x = elim (m x) [ none ↦ false | some _ ↦ true ]

-- A macro in an `#if`, where an undefined one is 0.
abbrev pub value : Macros → String → ℕ
value m x = elim (m x) [ none ↦ 0 | some n ↦ n ]

-- What is not compiled, since a macro that it uses is not defined, is `none`.
infixl 5 ◌>>=◌
abbrev pub ◌>>=◌ {ℓ κ} : {A : Type ℓ} {B : Type κ} → Option A → (A → Option B) → Option B
none >>= f = none
some a >>= f = f a

-- DEC
unfoldable pub dec : ℕ → Bytes
dec n =
    (48 + n / 10000000 % 10)
    ∷ (48 + n / 1000000 % 10)
    ∷ (48 + n / 100000 % 10)
    ∷ (48 + n / 10000 % 10)
    ∷ (48 + n / 1000 % 10)
    ∷ (48 + n / 100 % 10)
    ∷ (48 + n / 10 % 10)
    ∷ (48 + n % 10)
    ∷ []

-- HEX
pub hex : ℕ → Bytes
hex n =
    (48 + n / 2 ^ 28 % 16)
    ∷ (48 + n / 2 ^ 24 % 16)
    ∷ (48 + n / 2 ^ 20 % 16)
    ∷ (48 + n / 2 ^ 16 % 16)
    ∷ (48 + n / 2 ^ 12 % 16)
    ∷ (48 + n / 2 ^ 8 % 16)
    ∷ (48 + n / 2 ^ 4 % 16)
    ∷ (48 + n % 16)
    ∷ []

-- `#define A DEC(X)` under `#if defined(X)`
abbrev pub dec_if : Option ℕ → Option Bytes
dec_if none = none
dec_if (some n) = some (dec n)

-- The first branch of an `#if` whose condition holds.
abbrev pub first {ℓ} : {A : Type ℓ} → List (Bool × A) → A → A
first [] other = other
first ((true, a) ∷ rest) other = a
first ((false, a) ∷ rest) other = first rest other
