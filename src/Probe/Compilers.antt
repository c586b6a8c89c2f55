-- ===== src/Probe/Compilers.antt =====
-- CMakeCCompilerId.c: the branches from Clang on, and the `#if` that chooses one.
use m_rpc.Prelude.{
  ℕ, ◌/◌, ◌%◌, ◌^◌, not, ◌&&◌, ◌||◌, Option, none, some, [], ◌∷◌, ltb, if◌then◌else◌,
}
use m_rpc.Endian.{Bytes}
use m_rpc.Codec.Text.{codes}
use m_rpc.Probe.{Macros, defined, value, ◌>>=◌, dec, hex, dec_if, first}
use m_rpc.Probe.Vendors.{
  Identity, named, two, three, simulates, intel, path_scale, embarcadero, borland, watcom,
  open_watcom, sun_pro, hp, compaq, ibm, pgi, cray, ti,
}

unfoldable pub apple_clang : Macros → Option Identity
apple_clang m = do
  a ← m "__clang_major__"
  b ← m "__clang_minor__"
  c ← m "__clang_patchlevel__"
  d ← m "__apple_build_version__"
  some (record (simulates (m "_MSC_VER") (three (codes "AppleClang") (dec a) (dec b) (dec c))) {
    tweak = some (dec d);
  })

unfoldable pub clang : Macros → Option Identity
clang m = do
  a ← m "__clang_major__"
  b ← m "__clang_minor__"
  c ← m "__clang_patchlevel__"
  some (simulates (m "_MSC_VER") (three (codes "Clang") (dec a) (dec b) (dec c)))

unfoldable pub gnu : Macros → Option Identity
gnu m = do
  a ← m "__GNUC__"
  some (record (named (codes "GNU")) {
    major = some (dec a);
    minor = dec_if (m "__GNUC_MINOR__");
    patch = dec_if (m "__GNUC_PATCHLEVEL__");
  })

unfoldable pub msvc : Macros → Option Identity
msvc m = do
  v ← m "_MSC_VER"
  let full = m "_MSC_FULL_VER"
  some (record (two (codes "MSVC") (dec (v / 100)) (dec (v % 100))) {
    patch = elim full [
      | none ↦ none
      | some f ↦ some (if ltb v 1400 then dec (f % 10000) else dec (f % 100000))
    ];
    tweak = dec_if (m "_MSC_BUILD");
  })

unfoldable pub adsp : Macros → Option Identity
adsp m = elim (m "__VISUALDSPVERSION__") [
  | none ↦ some (named (codes "ADSP"))
  | some v ↦
      some
        (three (codes "ADSP") (hex (v / 2 ^ 24)) (hex (v / 2 ^ 16 % 256)) (hex (v / 2 ^ 8 % 256)))
]

unfoldable pub iar : Macros → Option Identity
iar m = elim (m "__VER__") [
  | none ↦ some (named (codes "IAR"))
  | some v ↦ do
    i ← m "__IAR_SYSTEMS_ICC__"
    some
        (record (three (codes "IAR") (dec (v / 1000000)) (dec (v / 1000 % 1000)) (dec (v % 1000))) {
          internal = some (dec i);
        })
]

unfoldable pub armcc : Macros → Option Identity
armcc m = do
  v ← m "__ARMCC_VERSION"
  let id = codes "ARMCC"
  some (
      if ltb v 1000000
      then three id (dec (v / 100000)) (dec (v / 10000 % 10)) (dec (v % 10000))
      else three id (dec (v / 1000000)) (dec (v / 10000 % 100)) (dec (v % 10000)))

-- A version that is written VRP.
abbrev pub vrp : Bytes → ℕ → Identity
vrp id v = three id (dec (v / 100)) (dec (v / 10 % 10)) (dec (v % 10))

pub sdcc : Macros → Option Identity
sdcc m = elim (m "__SDCC_VERSION_MAJOR") [
  | none ↦ do v ← m "SDCC"; some (vrp (codes "SDCC") v)
  | some a ↦ do
    b ← m "__SDCC_VERSION_MINOR"
    c ← m "__SDCC_VERSION_PATCH"
    some (three (codes "SDCC") (dec a) (dec b) (dec c))
]

unfoldable pub mips_pro : Macros → Option Identity
mips_pro m = elim (m "_SGI_COMPILER_VERSION") [
  | none ↦ do v ← m "_COMPILER_VERSION"; some (vrp (codes "MIPSpro") v)
  | some v ↦ some (vrp (codes "MIPSpro") v)
]

-- The compilers from TI on.
unfoldable pub later_compiler : Macros → Option Identity
later_compiler m =
    let is = defined m in
    first
      ((is "__TI_COMPILER_VERSION__", ti m)
        ∷ (
          is "__FUJITSU" || is "__FCC_VERSION" || is "__fcc_version",
          some (named (codes "Fujitsu")),
        )
        ∷ (is "__TINYC__", some (named (codes "TinyCC")))
        ∷ (is "__BCC__", some (named (codes "Bruce")))
        ∷ (is "__SCO_VERSION__", some (named (codes "SCO")))
        ∷ (is "__clang__" && is "__apple_build_version__", apple_clang m)
        ∷ (is "__clang__", clang m)
        ∷ (is "__GNUC__", gnu m)
        ∷ (is "_MSC_VER", msvc m)
        ∷ (
          is "__VISUALDSPVERSION__"
              || is "__ADSPBLACKFIN__"
              || is "__ADSPTS__"
              || is "__ADSP21000__",
          adsp m,
        )
        ∷ (is "__IAR_SYSTEMS_ICC__" || is "__IAR_SYSTEMS_ICC", iar m)
        ∷ (is "__ARMCC_VERSION", armcc m)
        ∷ (is "__SDCC_VERSION_MAJOR" || is "SDCC", sdcc m)
        ∷ (is "_SGI_COMPILER_VERSION" || is "_COMPILER_VERSION", mips_pro m)
        ∷ (is "__sgi", some (named (codes "MIPSpro")))
        ∷ (is "__hpux" || is "__hpua", some (named (codes "HP")))
        ∷ [])
      (some (named []))

-- The whole `#if`.
unfoldable pub compiler : Macros → Option Identity
compiler m =
    let is = defined m in
    let ibmc = is "__IBMC__" && not (is "__COMPILER_VER__") in
    first
      ((is "__INTEL_COMPILER" || is "__ICC", intel m)
        ∷ (is "__PATHCC__", path_scale m)
        ∷ (is "__BORLANDC__" && is "__CODEGEARC_VERSION__", embarcadero m)
        ∷ (is "__BORLANDC__", borland m)
        ∷ (is "__WATCOMC__" && ltb (value m "__WATCOMC__") 1200, watcom m)
        ∷ (is "__WATCOMC__", open_watcom m)
        ∷ (is "__SUNPRO_C", sun_pro m)
        ∷ (is "__HP_cc", hp m)
        ∷ (is "__DECC", compaq m)
        ∷ (is "__IBMC__" && is "__COMPILER_VER__", ibm (codes "zOS") m)
        ∷ (ibmc && not (ltb (value m "__IBMC__") 800), ibm (codes "XL") m)
        ∷ (ibmc && ltb (value m "__IBMC__") 800, ibm (codes "VisualAge") m)
        ∷ (is "__PGI", pgi m)
        ∷ (is "_CRAYC", cray m)
        ∷ [])
      (later_compiler m)
