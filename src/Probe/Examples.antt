-- ===== src/Probe/Examples.antt =====
-- The program of CMakeCCompilerId.c as GNU C 7.5.0 compiles it for Linux.
use m_rpc.Prelude.{ℕ, ◌≡◌, refl, Option, none, some, List, [], ◌∷◌, ◌++◌, length, if◌then◌else◌}
use m_rpc.Endian.{Bytes}
use m_rpc.Channel.{bytes_eq}
use m_rpc.Codec.Text.{codes}
use m_rpc.Probe.{Macros, dec, hex}
use m_rpc.Probe.Vendors.{Identity, three}
use m_rpc.Probe.Compilers.{compiler, later_compiler, gnu}
use m_rpc.Probe.Platforms.{platform}
use m_rpc.Probe.Output.{info_version, dotted}
use m_rpc.Probe.Digits.{number, number-dec}

abbrev among : List (Bytes × ℕ) → Bytes → Option ℕ
among [] x = none
among ((y, n) ∷ rest) x = if bytes_eq y x then some n else among rest x

abbrev gcc : Macros
gcc x =
    among
      ((codes "__GNUC__", 7)
        ∷ (codes "__GNUC_MINOR__", 5)
        ∷ (codes "__GNUC_PATCHLEVEL__", 0)
        ∷ (codes "__linux__", 1)
        ∷ (codes "__STDC__", 1)
        ∷ (codes "__STDC_VERSION__", 201112)
        ∷ [])
      (codes x)

abbrev found : Identity
found = three (codes "GNU") (dec 7) (dec 5) (dec 0)

compiler_test : compiler gcc ≡ some found
unfolding compiler later_compiler gnu bytes_eq
compiler_test = refl

platform_test : platform gcc ≡ codes "Linux"
unfolding platform bytes_eq
platform_test = refl

version_test :
    info_version found ≡ some (codes "INFO:compiler_version[00000007.00000005.00000000]" ++ 0 ∷ [])
unfolding info_version dec dotted
version_test = refl

number-dec_example :
    (number 10 0 (dec 201112) ≡ 201112)
    × (length (dec 201112) ≡ 8)
    × (number 16 0 (hex 201112) ≡ 201112)
    × (length (hex 201112) ≡ 8)
number-dec_example = number-dec 201112
