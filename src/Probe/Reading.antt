-- ===== src/Probe/Reading.antt =====
-- `main` of CMakeCCompilerId.c and of CMakeCXXCompilerId.cpp reads inside its texts.
use m_rpc.Probe.Cxx.{cxx_dialect, cxx_texts, cxx_main}
use m_rpc.Prelude.{
  ℕ, zero, suc, ◌+◌, ◌≤◌, ◌<◌, ◌≡◌, refl, Bool, true, false, Bool-cases, inl, inr, Option, none,
  some, List, [], ◌∷◌, ◌++◌, length, length-append, get_elem?, ◌||◌, if◌then◌else◌, Returns, arith,
}
use m_rpc.Endian.{Bytes}
use m_rpc.Codec.Text.{codes}
use m_rpc.Probe.{Macros, defined}
use m_rpc.Probe.Vendors.{Identity}
use m_rpc.Probe.Platforms.{platform, architecture, dialect}
use m_rpc.Probe.Output.{
  info, dotted, info_version, info_version_internal, info_simulate_version, info_simulate,
  info_cray, texts, read_all, main,
}

-- A text that is defined has twelve characters, its last zero included.
Long : Option Bytes → Type 0
Long none = Unit {0}
Long (some t) = 12 ≤ length t

AllLong : List (Option Bytes) → Type 0
AllLong [] = Unit {0}
AllLong (t ∷ ts) = Long t × AllLong ts

get_elem?-length : (l : Bytes) (i : ℕ) → i < length l → (x : ℕ) × (get_elem? l i ≡ some x)
get_elem?-length [] i h = absurd (omega arith)
get_elem?-length (x ∷ l) zero h = (x, refl)
get_elem?-length (x ∷ l) (suc i) h = get_elem?-length l i (omega arith)

read_all-Returns :
    (argc : ℕ) (ts : List (Option Bytes)) (r : ℕ)
    → argc < 12
    → AllLong ts
    → Returns (λ _. Unit {0}) (read_all argc ts r)
unfolding read_all AllLong Long
read_all-Returns argc [] r few long = tt
read_all-Returns argc (none ∷ ts) r few long = read_all-Returns argc ts r few long.1
read_all-Returns argc (some t ∷ ts) r few long =
    let (x, there) = get_elem?-length t argc (omega (arith, long.0)) in
    rw (there, read_all) (read_all-Returns argc ts (r + x) few long.1)

length-info : (before inside : Bytes) → 5 ≤ length before → 12 ≤ length (info before inside)
length-info before inside h =
    omega
      (arith, length-append before (inside ++ (93 ∷ 0 ∷ [])), length-append inside (93 ∷ 0 ∷ []))

-- A text that is defined if a macro is.
if_defined :
    (before : Bytes) (f : Bytes → Bytes) (o : Option Bytes)
    → 5 ≤ length before
    → Long (elim o [ none ↦ none | some a ↦ some (info before (f a)) ])
unfolding Long
if_defined before f none h = tt
if_defined before f (some a) h = length-info before (f a) h

cray_text :
    (b : Bool)
    → Long (if b then some (info (codes "compiler_wrapper[") (codes "CrayPrgEnv")) else none)
unfolding Long
cray_text true = length-info (codes "compiler_wrapper[") (codes "CrayPrgEnv") (omega arith)
cray_text false = tt

texts-AllLong : (m_arm : Bytes) (m : Macros) (c : Identity) → AllLong (texts m_arm m c)
unfolding AllLong Long texts info_version info_version_internal info_simulate info_simulate_version
    info_cray
texts-AllLong m_arm m c =
    let t1 = length-info (codes "compiler[") c.id (omega arith) in
    let t2 = length-info (codes "platform[") (platform m) (omega arith) in
    let t3 = length-info (codes "arch[") (architecture m_arm m) (omega arith) in
    let t4 =
      if_defined (codes "compiler_version[") (λ a. a ++ dotted (c.minor ∷ c.patch ∷ c.tweak ∷ []))
        c.major (omega arith) in
    let t5 = if_defined (codes "compiler_version_internal[") (λ a. a) c.internal (omega arith) in
    let t6 = if_defined (codes "simulate[") (λ a. a) c.simulate_id (omega arith) in
    let t7 =
      if_defined (codes "simulate_version[") (λ a. a ++ dotted (c.simulate_minor ∷ []))
        c.simulate_major (omega arith) in
    let t8 = cray_text (defined m "__CRAYXE" || defined m "__CRAYXC") in
    let t9 = length-info (codes "dialect_default[") (dialect m) (omega arith) in
    (t1, (t2, (t3, (t4, (t5, (t6, (t7, (t8, (t9, tt)))))))))

cxx_texts-AllLong : (m : Macros) (c : Identity) → AllLong (cxx_texts m c)
unfolding AllLong Long texts cxx_texts
cxx_texts-AllLong m c =
    let (t1, (t2, (t3, (t4, (t5, (t6, (t7, (t8, rest)))))))) = texts-AllLong [] m c in
    (
      t1,
      (
        t2,
        (
          t4,
          (
            t5,
            (
              t6,
              (
                t7,
                (t8, (length-info (codes "dialect_default[") (cxx_dialect m) (omega arith), tt)),
              ),
            ),
          ),
        ),
      ),
    )

-- Whatever macros are defined and whatever compiler was found, `main` of either program returns if it
-- is called with fewer than twelve words: every character that it reads stands inside its text.
pub main_total :
    (argc : ℕ) (m_arm : Bytes) (m : Macros) (c : Identity)
    → argc < 12
    → Returns (λ _. Unit {0}) (main argc m_arm m c) × Returns (λ _. Unit {0}) (cxx_main argc m c)
unfolding main cxx_main
main_total argc m_arm m c few = (
  elim (Bool-cases (defined m "__18CXX")) [
    | inl void ↦ rw (void, main) tt
    | inr returns ↦
        rw (returns, main) (read_all-Returns argc (texts m_arm m c) 0 few (texts-AllLong m_arm m c))
  ],
  read_all-Returns argc (cxx_texts m c) 0 few (cxx_texts-AllLong m c),
)
