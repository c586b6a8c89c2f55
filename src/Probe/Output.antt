-- ===== src/Probe/Output.antt =====
-- CMakeCCompilerId.c: the texts that the program holds, and `main`, which reads a character of each.
use m_rpc.Prelude.{
  ℕ, ◌+◌, ◌||◌, Option, none, some, List, [], ◌∷◌, ◌++◌, get_elem?, Run, ok, crash, if◌then◌else◌,
}
use m_rpc.Endian.{Bytes}
use m_rpc.Codec.Text.{codes}
use m_rpc.Probe.{Macros, defined}
use m_rpc.Probe.Vendors.{Identity}
use m_rpc.Probe.Platforms.{platform, architecture, dialect}

-- "INFO" ":" before, "]" after, and the zero byte at the end
abbrev pub info : Bytes → Bytes → Bytes
info before inside = codes "INFO:" ++ (before ++ (inside ++ (93 ∷ 0 ∷ [])))

-- The components of a version that stand behind the first, while they are defined.
abbrev pub dotted : List (Option Bytes) → Bytes
dotted [] = []
dotted (none ∷ rest) = []
dotted (some d ∷ rest) = 46 ∷ (d ++ dotted rest)

-- info_version
unfoldable pub info_version : Identity → Option Bytes
info_version c = elim c.major [
  | none ↦ none
  | some a ↦
      some (info (codes "compiler_version[") (a ++ dotted (c.minor ∷ c.patch ∷ c.tweak ∷ [])))
]

-- info_version_internal
unfoldable pub info_version_internal : Identity → Option Bytes
info_version_internal c = elim c.internal [
  | none ↦ none
  | some a ↦ some (info (codes "compiler_version_internal[") a)
]

-- info_simulate_version; SIMULATE_VERSION_PATCH is never defined
unfoldable pub info_simulate_version : Identity → Option Bytes
info_simulate_version c = elim c.simulate_major [
  | none ↦ none
  | some a ↦ some (info (codes "simulate_version[") (a ++ dotted (c.simulate_minor ∷ [])))
]

unfoldable pub info_simulate : Identity → Option Bytes
info_simulate c = elim c.simulate_id [ none ↦ none | some i ↦ some (info (codes "simulate[") i) ]

unfoldable pub info_cray : Macros → Option Bytes
info_cray m =
    if defined m "__CRAYXE" || defined m "__CRAYXC"
    then some (info (codes "compiler_wrapper[") (codes "CrayPrgEnv"))
    else none

-- The texts of which `main` reads a character, in its order.
unfoldable pub texts : Bytes → Macros → Identity → List (Option Bytes)
texts m_arm m c =
    some (info (codes "compiler[") c.id)
    ∷ some (info (codes "platform[") (platform m))
    ∷ some (info (codes "arch[") (architecture m_arm m))
    ∷ info_version c
    ∷ info_version_internal c
    ∷ info_simulate c
    ∷ info_simulate_version c
    ∷ info_cray m
    ∷ some (info (codes "dialect_default[") (dialect m))
    ∷ []

-- `require += text[argc]` for each text that is defined; a read behind the end is a crash.
unfoldable pub read_all : ℕ → List (Option Bytes) → ℕ → Run ℕ
read_all argc [] require = ok require
read_all argc (none ∷ rest) require = read_all argc rest require
read_all argc (some text ∷ rest) require = elim (get_elem? text argc) [
  | none ↦ crash
  | some c ↦ read_all argc rest (require + c)
]

-- main, of the program that was compiled to these texts; `void main` returns nothing, here 0
unfoldable pub main : ℕ → Bytes → Macros → Identity → Run ℕ
main argc m_arm m c = if defined m "__18CXX" then ok 0 else read_all argc (texts m_arm m c) 0
