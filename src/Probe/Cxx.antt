-- ===== src/Probe/Cxx.antt =====
-- build/CMakeFiles/3.10.2/CompilerIdCXX/CMakeCXXCompilerId.cpp: the same program for C++. Its
-- PLATFORM_ID and the macros of its texts are those of the program for C.
use m_rpc.Prelude.{
  ℕ, ◌/◌, ◌%◌, ◌^◌, not, ◌&&◌, ◌||◌, Option, none, some, List, [], ◌∷◌, ltb, if◌then◌else◌, Run,
}
use m_rpc.Endian.{Bytes}
use m_rpc.Codec.Text.{codes}
use m_rpc.Probe.{Macros, defined, value, ◌>>=◌, dec, hex, dec_if, first}
use m_rpc.Probe.Vendors.{Identity, named, two, three}
use m_rpc.Probe.CxxVendors.{
  cxx_intel, cxx_path_scale, cxx_embarcadero, cxx_borland, cxx_watcom, cxx_open_watcom, cxx_pgi,
  cxx_cray, cxx_ti, cxx_apple_clang, cxx_clang, cxx_msvc, cxx_adsp, cxx_iar, cxx_armcc,
  cxx_mips_pro,
}
use m_rpc.Probe.Platforms.{platform}
use m_rpc.Probe.Output.{
  info, info_version, info_version_internal, info_simulate, info_simulate_version, info_cray,
  read_all,
}

pub comeau : Macros → Option Identity
comeau m = do v ← m "__COMO_VERSION__"; some (two (codes "Comeau") (dec (v / 100)) (dec (v % 100)))

pub sun_pro_cc : Macros → Option Identity
sun_pro_cc m = do
  v ← m "__SUNPRO_CC"
  let id = codes "SunPro"
  some (
      if ltb v 20736
      then three id (hex (v / 2 ^ 8)) (hex (v / 2 ^ 4 % 16)) (hex (v % 16))
      else three id (hex (v / 2 ^ 12)) (hex (v / 2 ^ 4 % 256)) (hex (v % 16)))

pub hp_acc : Macros → Option Identity
hp_acc m = do
  v ← m "__HP_aCC"
  some (three (codes "HP") (dec (v / 10000)) (dec (v / 100 % 100)) (dec (v % 100)))

pub compaq_cxx : Macros → Option Identity
compaq_cxx m = do
  v ← m "__DECCXX_VER"
  some (three (codes "Compaq") (dec (v / 10000000)) (dec (v / 100000 % 100)) (dec (v % 10000)))

-- The three branches of IBM's compilers, which differ in their names.
pub ibm_cpp : Bytes → Macros → Option Identity
ibm_cpp id m = do
  v ← m "__IBMCPP__"
  some (three id (dec (v / 100)) (dec (v / 10 % 10)) (dec (v % 10)))

-- `__GNUC__` for the major version, or `__GNUG__` where that is not defined
unfoldable pub gnu_cxx : Macros → Option Identity
gnu_cxx m = do
  a ← elim (m "__GNUC__") [ none ↦ m "__GNUG__" | some n ↦ some n ]
  some (record (named (codes "GNU")) {
    major = some (dec a);
    minor = dec_if (m "__GNUC_MINOR__");
    patch = dec_if (m "__GNUC_PATCHLEVEL__");
  })

-- The compilers from TI on.
unfoldable pub later_cxx_compiler : Macros → Option Identity
later_cxx_compiler m =
    let is = defined m in
    first
      ((is "__TI_COMPILER_VERSION__", cxx_ti m)
        ∷ (
          is "__FUJITSU" || is "__FCC_VERSION" || is "__fcc_version",
          some (named (codes "Fujitsu")),
        )
        ∷ (is "__SCO_VERSION__", some (named (codes "SCO")))
        ∷ (is "__clang__" && is "__apple_build_version__", cxx_apple_clang m)
        ∷ (is "__clang__", cxx_clang m)
        ∷ (is "__GNUC__" || is "__GNUG__", gnu_cxx m)
        ∷ (is "_MSC_VER", cxx_msvc m)
        ∷ (
          is "__VISUALDSPVERSION__"
              || is "__ADSPBLACKFIN__"
              || is "__ADSPTS__"
              || is "__ADSP21000__",
          cxx_adsp m,
        )
        ∷ (is "__IAR_SYSTEMS_ICC__" || is "__IAR_SYSTEMS_ICC", cxx_iar m)
        ∷ (is "__ARMCC_VERSION", cxx_armcc m)
        ∷ (is "_SGI_COMPILER_VERSION" || is "_COMPILER_VERSION", cxx_mips_pro m)
        ∷ (is "__sgi", some (named (codes "MIPSpro")))
        ∷ (is "__hpux" || is "__hpua", some (named (codes "HP")))
        ∷ [])
      (some (named []))

-- The whole `#if`.
unfoldable pub cxx_compiler : Macros → Option Identity
cxx_compiler m =
    let is = defined m in
    let ibm = is "__IBMCPP__" && not (is "__COMPILER_VER__") in
    first
      ((is "__COMO__", comeau m)
        ∷ (is "__INTEL_COMPILER" || is "__ICC", cxx_intel m)
        ∷ (is "__PATHCC__", cxx_path_scale m)
        ∷ (is "__BORLANDC__" && is "__CODEGEARC_VERSION__", cxx_embarcadero m)
        ∷ (is "__BORLANDC__", cxx_borland m)
        ∷ (is "__WATCOMC__" && ltb (value m "__WATCOMC__") 1200, cxx_watcom m)
        ∷ (is "__WATCOMC__", cxx_open_watcom m)
        ∷ (is "__SUNPRO_CC", sun_pro_cc m)
        ∷ (is "__HP_aCC", hp_acc m)
        ∷ (is "__DECCXX", compaq_cxx m)
        ∷ (is "__IBMCPP__" && is "__COMPILER_VER__", ibm_cpp (codes "zOS") m)
        ∷ (ibm && not (ltb (value m "__IBMCPP__") 800), ibm_cpp (codes "XL") m)
        ∷ (ibm && ltb (value m "__IBMCPP__") 800, ibm_cpp (codes "VisualAge") m)
        ∷ (is "__PGI", cxx_pgi m)
        ∷ (is "_CRAYC", cxx_cray m)
        ∷ [])
      (later_cxx_compiler m)

-- CXX_STD
abbrev pub cxx_std : Macros → ℕ
cxx_std m =
    if defined m "_MSC_VER" && defined m "_MSVC_LANG"
    then value m "_MSVC_LANG"
    else value m "__cplusplus"

-- The text between the brackets of info_language_dialect_default
pub cxx_dialect : Macros → Bytes
cxx_dialect m =
    first
      ((ltb 201402 (cxx_std m), codes "17")
        ∷ (not (ltb (cxx_std m) 201402), codes "14")
        ∷ (not (ltb (cxx_std m) 201103), codes "11")
        ∷ [])
      (codes "98")

-- The texts of which `main` reads a character, in its order; info_arch is not one of them.
unfoldable pub cxx_texts : Macros → Identity → List (Option Bytes)
cxx_texts m c =
    some (info (codes "compiler[") c.id)
    ∷ some (info (codes "platform[") (platform m))
    ∷ info_version c
    ∷ info_version_internal c
    ∷ info_simulate c
    ∷ info_simulate_version c
    ∷ info_cray m
    ∷ some (info (codes "dialect_default[") (cxx_dialect m))
    ∷ []

-- main
unfoldable pub cxx_main : ℕ → Macros → Identity → Run ℕ
cxx_main argc m c = read_all argc (cxx_texts m c) 0
