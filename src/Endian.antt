-- ===== src/Endian.antt =====
-- include/ev_endian.h: integers between the host's byte order and the network's. An integer of
-- `w` bytes lies in memory as a list of `w` numbers below 256, at the lowest address first.
pub mod Laws
use m_rpc.Prelude.{ℕ, zero, suc, ◌+◌, ◌*◌, ◌/◌, ◌%◌, ◌<◌, List, [], ◌∷◌}
use mathlib.Core.List.{reverse}

abbrev pub Bytes : Type 0
Bytes = List ℕ

abbrev pub IsByte : ℕ → Type 0
IsByte b = b < 256

-- The byte order of the host that runs the code.
pub data ByteOrder : Type 0 where
  little big : ByteOrder

-- The lowest `w` bytes of `x`, the least significant one first; and back.
unfoldable pub le_bytes : ℕ → ℕ → Bytes
le_bytes zero x = []
le_bytes (suc w) x = (x % 256) ∷ le_bytes w (x / 256)

unfoldable pub le_value : Bytes → ℕ
le_value [] = 0
le_value (b ∷ bs) = b + 256 * le_value bs

-- The bytes of an integer on the wire.
unfoldable pub be_bytes : ℕ → ℕ → Bytes
unfolding le_bytes
be_bytes w x = reverse (le_bytes w x)

-- The bytes of an integer in the host's memory, and the integer that such bytes are.
unfoldable pub image : ByteOrder → ℕ → ℕ → Bytes
unfolding le_bytes be_bytes
image little w x = le_bytes w x
image big w x = be_bytes w x

unfoldable pub load : ByteOrder → Bytes → ℕ
unfolding le_value
load little bs = le_value bs
load big bs = le_value (reverse bs)

-- `htobe64`, `htobe32`, `htobe16`: the integer whose bytes in memory are those on the wire.
unfoldable pub host_to_network : ByteOrder → ℕ → ℕ → ℕ
unfolding be_bytes load
host_to_network o w x = load o (be_bytes w x)

-- `be64toh`, `be32toh`, `be16toh`: the bytes in memory, read as those on the wire.
unfoldable pub network_to_host : ByteOrder → ℕ → ℕ → ℕ
unfolding image le_value
network_to_host o w x = le_value (reverse (image o w x))

unfoldable pub host_to_network64 : ByteOrder → ℕ → ℕ
unfolding host_to_network
host_to_network64 o host64 = host_to_network o 8 host64

unfoldable pub host_to_network32 : ByteOrder → ℕ → ℕ
unfolding host_to_network
host_to_network32 o host32 = host_to_network o 4 host32

unfoldable pub host_to_network16 : ByteOrder → ℕ → ℕ
unfolding host_to_network
host_to_network16 o host16 = host_to_network o 2 host16

unfoldable pub network_to_host64 : ByteOrder → ℕ → ℕ
unfolding network_to_host
network_to_host64 o net64 = network_to_host o 8 net64

unfoldable pub network_to_host32 : ByteOrder → ℕ → ℕ
unfolding network_to_host
network_to_host32 o net32 = network_to_host o 4 net32

unfoldable pub network_to_host16 : ByteOrder → ℕ → ℕ
unfolding network_to_host
network_to_host16 o net16 = network_to_host o 2 net16
