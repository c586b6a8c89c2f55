-- ===== src/Probe/Twins.antt =====
-- CMakeCCompilerId.c and CMakeCXXCompilerId.cpp compared.
use Prim.Native.String.{String}
use m_rpc.Prelude.{◌≡◌, none}
use m_rpc.Probe.{Macros}

-- A compiler that defines no macro of which only one of the two programs asks, but `__GNUG__` beside
-- `__GNUC__`.
pub record IsCommon (m : Macros) : Type 0 where
  pub comeau : m "__COMO__" ≡ none
  pub sun_c : m "__SUNPRO_C" ≡ none
  pub sun_cc : m "__SUNPRO_CC" ≡ none
  pub hp_c : m "__HP_cc" ≡ none
  pub hp_cc : m "__HP_aCC" ≡ none
  pub dec_c : m "__DECC" ≡ none
  pub dec_cc : m "__DECCXX" ≡ none
  pub ibm_c : m "__IBMC__" ≡ none
  pub ibm_cc : m "__IBMCPP__" ≡ none
  pub tiny : m "__TINYC__" ≡ none
  pub bruce : m "__BCC__" ≡ none
  pub sdcc_major : m "__SDCC_VERSION_MAJOR" ≡ none
  pub sdcc : m "SDCC" ≡ none
  pub gnu_both : m "__GNUC__" ≡ none → m "__GNUG__" ≡ none

-- The branches that both programs have, compared.
