-- ===== src/Probe/Vendors.antt =====
-- CMakeCCompilerId.c: what a compiler is identified by, and the branches from Intel to TI.
use m_rpc.Prelude.{ℕ, ◌-◌, ◌/◌, ◌%◌, ◌^◌, Option, none, some, ltb, if◌then◌else◌}
use m_rpc.Endian.{Bytes}
use m_rpc.Codec.Text.{codes}
use m_rpc.Probe.{Macros, ◌>>=◌, dec, hex, dec_if}

-- COMPILER_ID, the COMPILER_VERSION_ macros that are defined, and the same for SIMULATE_.
pub record Identity : Type 0 where
  pub id : Bytes
  pub major : Option Bytes
  pub minor : Option Bytes
  pub patch : Option Bytes
  pub tweak : Option Bytes
  pub internal : Option Bytes
  pub simulate_id : Option Bytes
  pub simulate_major : Option Bytes
  pub simulate_minor : Option Bytes

-- A branch without a version.
abbrev pub named : Bytes → Identity
named id = record {
  id = id;
  major = none;
  minor = none;
  patch = none;
  tweak = none;
  internal = none;
  simulate_id = none;
  simulate_major = none;
  simulate_minor = none;
}

abbrev pub two : Bytes → Bytes → Bytes → Identity
two id a b = record (named id) { major = some a; minor = some b }

abbrev pub three : Bytes → Bytes → Bytes → Bytes → Identity
three id a b c = record (two id a b) { patch = some c }

-- SIMULATE_ID and its version, under `#if defined(_MSC_VER)`
abbrev pub simulates : Option ℕ → Identity → Identity
simulates none i = i
simulates (some v) i = record i {
  simulate_id = some (codes "MSVC");
  simulate_major = some (dec (v / 100));
  simulate_minor = some (dec (v % 100));
}

-- COMPILER_VERSION_PATCH of Intel
abbrev pub intel_patch : ℕ → Option ℕ → Bytes
intel_patch v none = dec (v % 10)
intel_patch v (some u) = dec u

unfoldable pub intel : Macros → Option Identity
intel m = do
  v ← m "__INTEL_COMPILER"
  let base = two (codes "Intel") (dec (v / 100)) (dec (v / 10 % 10))
  let patch = intel_patch v (m "__INTEL_COMPILER_UPDATE")
  let tweak = dec_if (m "__INTEL_COMPILER_BUILD_DATE")
  some (simulates (m "_MSC_VER") (record base { patch = some patch; tweak = tweak }))

unfoldable pub path_scale : Macros → Option Identity
path_scale m = do
  a ← m "__PATHCC__"
  b ← m "__PATHCC_MINOR__"
  some (record (two (codes "PathScale") (dec a) (dec b)) {
    patch = dec_if (m "__PATHCC_PATCHLEVEL__");
  })

unfoldable pub embarcadero : Macros → Option Identity
embarcadero m = do
  v ← m "__CODEGEARC_VERSION__"
  some (
      three (codes "Embarcadero") (hex (v / 2 ^ 24 % 256)) (hex (v / 2 ^ 16 % 256))
        (dec (v % 2 ^ 16)))

unfoldable pub borland : Macros → Option Identity
borland m = do v ← m "__BORLANDC__"; some (two (codes "Borland") (hex (v / 2 ^ 8)) (hex (v % 256)))

-- COMPILER_VERSION_PATCH of Watcom and OpenWatcom
abbrev pub watcom_patch : ℕ → Option Bytes
watcom_patch v = if ltb 0 (v % 10) then some (dec (v % 10)) else none

unfoldable pub watcom : Macros → Option Identity
watcom m = do
  v ← m "__WATCOMC__"
  some
      (record (two (codes "Watcom") (dec (v / 100)) (dec (v / 10 % 10))) { patch = watcom_patch v })

unfoldable pub open_watcom : Macros → Option Identity
open_watcom m = do
  v ← m "__WATCOMC__"
  some (record (two (codes "OpenWatcom") (dec ((v - 1100) / 100)) (dec (v / 10 % 10))) {
    patch = watcom_patch v;
  })

pub sun_pro : Macros → Option Identity
sun_pro m = do
  v ← m "__SUNPRO_C"
  let id = codes "SunPro"
  some (
      if ltb v 20736
      then three id (hex (v / 2 ^ 8)) (hex (v / 2 ^ 4 % 16)) (hex (v % 16))
      else three id (hex (v / 2 ^ 12)) (hex (v / 2 ^ 4 % 256)) (hex (v % 16)))

pub hp : Macros → Option Identity
hp m = do
  v ← m "__HP_cc"
  some (three (codes "HP") (dec (v / 10000)) (dec (v / 100 % 100)) (dec (v % 100)))

pub compaq : Macros → Option Identity
compaq m = do
  v ← m "__DECC_VER"
  some (three (codes "Compaq") (dec (v / 10000000)) (dec (v / 100000 % 100)) (dec (v % 10000)))

-- The three branches of IBM's compilers, which differ in their names.
pub ibm : Bytes → Macros → Option Identity
ibm id m = do v ← m "__IBMC__"; some (three id (dec (v / 100)) (dec (v / 10 % 10)) (dec (v % 10)))

unfoldable pub pgi : Macros → Option Identity
pgi m = do
  a ← m "__PGIC__"
  b ← m "__PGIC_MINOR__"
  some (record (two (codes "PGI") (dec a) (dec b)) { patch = dec_if (m "__PGIC_PATCHLEVEL__") })

unfoldable pub cray : Macros → Option Identity
cray m = do
  a ← m "_RELEASE_MAJOR"
  b ← m "_RELEASE_MINOR"
  some (two (codes "Cray") (dec a) (dec b))

unfoldable pub ti : Macros → Option Identity
ti m = do
  v ← m "__TI_COMPILER_VERSION__"
  some (three (codes "TI") (dec (v / 1000000)) (dec (v / 1000 % 1000)) (dec (v % 1000)))
