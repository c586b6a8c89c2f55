-- ===== src/Probe/CxxVendors.antt =====
-- CMakeCXXCompilerId.cpp: the branches of its `#if` that CMakeCCompilerId.c has as well.
use m_rpc.Prelude.{ℕ, ◌-◌, ◌/◌, ◌%◌, ◌^◌, Option, none, some, ltb, if◌then◌else◌}
use m_rpc.Endian.{Bytes}
use m_rpc.Codec.Text.{codes}
use m_rpc.Probe.{Macros, ◌>>=◌, dec, hex, dec_if}
use m_rpc.Probe.Vendors.{Identity, named, two, three, simulates}

abbrev pub cxx_intel_patch : ℕ → Option ℕ → Bytes
cxx_intel_patch v none = dec (v % 10)
cxx_intel_patch v (some u) = dec u

abbrev pub cxx_watcom_patch : ℕ → Option Bytes
cxx_watcom_patch v = if ltb 0 (v % 10) then some (dec (v % 10)) else none

abbrev pub cxx_vrp : Bytes → ℕ → Identity
cxx_vrp id v = three id (dec (v / 100)) (dec (v / 10 % 10)) (dec (v % 10))

unfoldable pub cxx_intel : Macros → Option Identity
cxx_intel m = do
  v ← m "__INTEL_COMPILER"
  let base = two (codes "Intel") (dec (v / 100)) (dec (v / 10 % 10))
  let patch = cxx_intel_patch v (m "__INTEL_COMPILER_UPDATE")
  let tweak = dec_if (m "__INTEL_COMPILER_BUILD_DATE")
  some (simulates (m "_MSC_VER") (record base { patch = some patch; tweak = tweak }))

unfoldable pub cxx_path_scale : Macros → Option Identity
cxx_path_scale m = do
  a ← m "__PATHCC__"
  b ← m "__PATHCC_MINOR__"
  some (record (two (codes "PathScale") (dec a) (dec b)) {
    patch = dec_if (m "__PATHCC_PATCHLEVEL__");
  })

unfoldable pub cxx_embarcadero : Macros → Option Identity
cxx_embarcadero m = do
  v ← m "__CODEGEARC_VERSION__"
  some (
      three (codes "Embarcadero") (hex (v / 2 ^ 24 % 256)) (hex (v / 2 ^ 16 % 256))
        (dec (v % 2 ^ 16)))

unfoldable pub cxx_borland : Macros → Option Identity
cxx_borland m = do
  v ← m "__BORLANDC__"
  some (two (codes "Borland") (hex (v / 2 ^ 8)) (hex (v % 256)))

unfoldable pub cxx_watcom : Macros → Option Identity
cxx_watcom m = do
  v ← m "__WATCOMC__"
  some (record (two (codes "Watcom") (dec (v / 100)) (dec (v / 10 % 10))) {
    patch = cxx_watcom_patch v;
  })

unfoldable pub cxx_open_watcom : Macros → Option Identity
cxx_open_watcom m = do
  v ← m "__WATCOMC__"
  some (record (two (codes "OpenWatcom") (dec ((v - 1100) / 100)) (dec (v / 10 % 10))) {
    patch = cxx_watcom_patch v;
  })

unfoldable pub cxx_pgi : Macros → Option Identity
cxx_pgi m = do
  a ← m "__PGIC__"
  b ← m "__PGIC_MINOR__"
  some (record (two (codes "PGI") (dec a) (dec b)) { patch = dec_if (m "__PGIC_PATCHLEVEL__") })

unfoldable pub cxx_cray : Macros → Option Identity
cxx_cray m = do
  a ← m "_RELEASE_MAJOR"
  b ← m "_RELEASE_MINOR"
  some (two (codes "Cray") (dec a) (dec b))

unfoldable pub cxx_ti : Macros → Option Identity
cxx_ti m = do
  v ← m "__TI_COMPILER_VERSION__"
  some (three (codes "TI") (dec (v / 1000000)) (dec (v / 1000 % 1000)) (dec (v % 1000)))

unfoldable pub cxx_apple_clang : Macros → Option Identity
cxx_apple_clang m = do
  a ← m "__clang_major__"
  b ← m "__clang_minor__"
  c ← m "__clang_patchlevel__"
  d ← m "__apple_build_version__"
  some (record (simulates (m "_MSC_VER") (three (codes "AppleClang") (dec a) (dec b) (dec c))) {
    tweak = some (dec d);
  })

unfoldable pub cxx_clang : Macros → Option Identity
cxx_clang m = do
  a ← m "__clang_major__"
  b ← m "__clang_minor__"
  c ← m "__clang_patchlevel__"
  some (simulates (m "_MSC_VER") (three (codes "Clang") (dec a) (dec b) (dec c)))

unfoldable pub cxx_msvc : Macros → Option Identity
cxx_msvc m = do
  v ← m "_MSC_VER"
  let full = m "_MSC_FULL_VER"
  some (record (two (codes "MSVC") (dec (v / 100)) (dec (v % 100))) {
    patch = elim full [
      | none ↦ none
      | some f ↦ some (if ltb v 1400 then dec (f % 10000) else dec (f % 100000))
    ];
    tweak = dec_if (m "_MSC_BUILD");
  })

unfoldable pub cxx_adsp : Macros → Option Identity
cxx_adsp m = elim (m "__VISUALDSPVERSION__") [
  | none ↦ some (named (codes "ADSP"))
  | some v ↦
      some
        (three (codes "ADSP") (hex (v / 2 ^ 24)) (hex (v / 2 ^ 16 % 256)) (hex (v / 2 ^ 8 % 256)))
]

unfoldable pub cxx_iar : Macros → Option Identity
cxx_iar m = elim (m "__VER__") [
  | none ↦ some (named (codes "IAR"))
  | some v ↦ do
    i ← m "__IAR_SYSTEMS_ICC__"
    some
        (record (three (codes "IAR") (dec (v / 1000000)) (dec (v / 1000 % 1000)) (dec (v % 1000))) {
          internal = some (dec i);
        })
]

unfoldable pub cxx_armcc : Macros → Option Identity
cxx_armcc m = do
  v ← m "__ARMCC_VERSION"
  let id = codes "ARMCC"
  some (
      if ltb v 1000000
      then three id (dec (v / 100000)) (dec (v / 10000 % 10)) (dec (v % 10000))
      else three id (dec (v / 1000000)) (dec (v / 10000 % 100)) (dec (v % 10000)))

unfoldable pub cxx_mips_pro : Macros → Option Identity
cxx_mips_pro m = elim (m "_SGI_COMPILER_VERSION") [
  | none ↦ do v ← m "_COMPILER_VERSION"; some (cxx_vrp (codes "MIPSpro") v)
  | some v ↦ some (cxx_vrp (codes "MIPSpro") v)
]
