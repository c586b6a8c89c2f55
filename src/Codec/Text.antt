-- ===== src/Codec/Text.antt =====
-- ProtobufCodecLite::errorCodeToString of src/codeClite.cpp.
use Prim.Native.Char.{code}
use Prim.Native.String.{String}
use m_rpc.Prelude.{ℕ, ◌+◌, ◌*◌, ap, length, ◌≡◌, [], ◌∷◌, ◌==◌, if◌then◌else◌, arith}
use m_rpc.Endian.{Bytes}
use m_rpc.Codec.{
  ErrorCode, no_error, invalid_length, checksum_error, invalid_name_len, unknown_message_type,
  parse_error,
}

-- The bytes of an ASCII text.
abbrev pub codes : String → Bytes
codes String.[] = []
codes (String.◌∷◌ c s) = code c ∷ codes s

-- The number of an enumerator.
abbrev pub code_number : ErrorCode → ℕ
code_number no_error = 0
code_number invalid_length = 1
code_number checksum_error = 2
code_number invalid_name_len = 3
code_number unknown_message_type = 4
code_number parse_error = 5

abbrev pub no_error_str : Bytes
no_error_str = codes "NoError"

abbrev pub invalid_length_str : Bytes
invalid_length_str = codes "InvalidLength"

abbrev pub checksum_error_str : Bytes
checksum_error_str = codes "CheckSumError"

abbrev pub invalid_name_len_str : Bytes
invalid_name_len_str = codes "InvalidNameLen"

abbrev pub unknown_message_type_str : Bytes
unknown_message_type_str = codes "UnknownMessageType"

abbrev pub parse_error_str : Bytes
parse_error_str = codes "ParseError"

abbrev pub unknown_error_str : Bytes
unknown_error_str = codes "UnknownError"

-- ProtobufCodecLite::errorCodeToString, on the number that the enum holds
pub error_code_to_string : ℕ → Bytes
error_code_to_string n =
    if n == 0
    then no_error_str
    else if n == 1
    then invalid_length_str
    else if n == 2
    then checksum_error_str
    else if n == 3
    then invalid_name_len_str
    else if n == 4
    then unknown_message_type_str
    else if n == 5
    then parse_error_str
    else unknown_error_str

abbrev first_byte : Bytes → ℕ
first_byte [] = 0
first_byte (x ∷ xs) = x

-- What tells the seven names apart.
abbrev mark : Bytes → ℕ
mark s = first_byte s * 100 + length s

name_mark :
    (n : ℕ)
    → mark (error_code_to_string n) ≡ (
        if n == 0
        then 7807
        else if n == 1
        then 7313
        else if n == 2
        then 6713
        else if n == 3
        then 7314
        else if n == 4
        then 8518
        else if n == 5
        then 8010
        else 8512)
unfolding error_code_to_string
name_mark n = ground arith

-- Different error codes have different names, none of which is the name of a number that is no
-- error code.
pub error_code_to_string_injective :
    (c : ErrorCode) (n : ℕ)
    → error_code_to_string (code_number c) ≡ error_code_to_string n
    → code_number c ≡ n
error_code_to_string_injective no_error n h = ground (arith, name_mark 0, name_mark n, ap mark h)
error_code_to_string_injective invalid_length n h =
    ground (arith, name_mark 1, name_mark n, ap mark h)
error_code_to_string_injective checksum_error n h =
    ground (arith, name_mark 2, name_mark n, ap mark h)
error_code_to_string_injective invalid_name_len n h =
    ground (arith, name_mark 3, name_mark n, ap mark h)
error_code_to_string_injective unknown_message_type n h =
    ground (arith, name_mark 4, name_mark n, ap mark h)
error_code_to_string_injective parse_error n h = ground (arith, name_mark 5, name_mark n, ap mark h)
