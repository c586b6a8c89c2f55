-- ===== src/Probe/Platforms.antt =====
-- CMakeCCompilerId.c: PLATFORM_ID, ARCHITECTURE_ID and C_DIALECT. One that is defined as nothing is
-- the empty text.
use m_rpc.Prelude.{not, ◌&&◌, ◌||◌, [], ◌∷◌, ◌++◌, ltb, ◌==◌, if◌then◌else◌}
use m_rpc.Endian.{Bytes}
use m_rpc.Codec.Text.{codes}
use m_rpc.Probe.{Macros, defined, value, first}

-- The platforms from Tru64 on, and those of Watcom's compilers.
pub later_platform : Macros → Bytes
later_platform m =
    let is = defined m in
    first
      ((is "__tru64" || is "_tru64" || is "__TRU64__", codes "Tru64")
        ∷ (is "__riscos" || is "__riscos__", codes "RISCos")
        ∷ (is "__sinix" || is "__sinix__" || is "__SINIX__", codes "SINIX")
        ∷ (is "__UNIX_SV__", codes "UNIX_SV")
        ∷ (is "__bsdos__", codes "BSDOS")
        ∷ (is "_MPRAS" || is "MPRAS", codes "MP-RAS")
        ∷ (is "__osf" || is "__osf__", codes "OSF1")
        ∷ (is "_SCO_SV" || is "SCO_SV" || is "sco_sv", codes "SCO_SV")
        ∷ (is "__ultrix" || is "__ultrix__" || is "_ULTRIX", codes "ULTRIX")
        ∷ (is "__XENIX__" || is "_XENIX" || is "XENIX", codes "Xenix")
        ∷ (
          is "__WATCOMC__",
          first
              ((is "__LINUX__", codes "Linux")
                ∷ (is "__DOS__", codes "DOS")
                ∷ (is "__OS2__", codes "OS2")
                ∷ (is "__WINDOWS__", codes "Windows3x")
                ∷ [])
              [],
        )
        ∷ [])
      []

unfoldable pub platform : Macros → Bytes
platform m =
    let is = defined m in
    first
      ((is "__linux" || is "__linux__" || is "linux", codes "Linux")
        ∷ (is "__CYGWIN__", codes "Cygwin")
        ∷ (is "__MINGW32__", codes "MinGW")
        ∷ (is "__APPLE__", codes "Darwin")
        ∷ (is "_WIN32" || is "__WIN32__" || is "WIN32", codes "Windows")
        ∷ (is "__FreeBSD__" || is "__FreeBSD", codes "FreeBSD")
        ∷ (is "__NetBSD__" || is "__NetBSD", codes "NetBSD")
        ∷ (is "__OpenBSD__" || is "__OPENBSD", codes "OpenBSD")
        ∷ (is "__sun" || is "sun", codes "SunOS")
        ∷ (is "_AIX" || is "__AIX" || is "__AIX__" || is "__aix" || is "__aix__", codes "AIX")
        ∷ (is "__sgi" || is "__sgi__" || is "_SGI", codes "IRIX")
        ∷ (is "__hpux" || is "__hpux__", codes "HP-UX")
        ∷ (is "__HAIKU__", codes "Haiku")
        ∷ (is "__BeOS" || is "__BEOS__" || is "_BEOS", codes "BeOS")
        ∷ (is "__QNX__" || is "__QNXNTO__", codes "QNX")
        ∷ [])
      (later_platform m)

-- The text that STRINGIFY makes of _M_ARM is an argument, since a macro is a number here.
pub architecture : Bytes → Macros → Bytes
architecture m_arm m =
    let is = defined m in
    first
      ((
        is "_WIN32" && is "_MSC_VER",
        first
            ((is "_M_IA64", codes "IA64")
              ∷ (is "_M_X64" || is "_M_AMD64", codes "x64")
              ∷ (is "_M_IX86", codes "X86")
              ∷ (is "_M_ARM64", codes "ARM64")
              ∷ (
                is "_M_ARM",
                if value m "_M_ARM" == 4
                    then codes "ARMV4I"
                    else if value m "_M_ARM" == 5
                    then codes "ARMV5I"
                    else codes "ARMV" ++ m_arm,
              )
              ∷ (is "_M_MIPS", codes "MIPS")
              ∷ (is "_M_SH", codes "SHx")
              ∷ [])
            [],
      )
        ∷ (
          is "__WATCOMC__",
          first ((is "_M_I86", codes "I86") ∷ (is "_M_IX86", codes "X86") ∷ []) [],
        )
        ∷ (
          is "__IAR_SYSTEMS_ICC__" || is "__IAR_SYSTEMS_ICC",
          first ((is "__ICCARM__", codes "ARM") ∷ (is "__ICCAVR__", codes "AVR") ∷ []) [],
        )
        ∷ [])
      []

pub dialect : Macros → Bytes
dialect m =
    let is = defined m in
    first
      ((not (is "__STDC__"), if is "_MSC_VER" && not (is "__clang__") then codes "90" else [])
        ∷ (not (ltb (value m "__STDC_VERSION__") 201000), codes "11")
        ∷ (not (ltb (value m "__STDC_VERSION__") 199901), codes "99")
        ∷ [])
      (codes "90")
