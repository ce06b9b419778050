-- ===== src/Net/Tests.antt =====
-- Runs of the address and byte order functions, and their theorems at concrete values.
use nuke.Base.{ℕ, ◌≡◌, refl, arith, List, [], ◌∷◌, ◌++◌, replicate}
use nuke.Base.Int.{pos, negsuc}
use nuke.Base.Result.{throws, out_of_range}
use nuke.Net.ByteOrder.{
  reverse_i16, reverse_i32, reverse_u16, reverse_u32, host_to_network_i16, host_to_network_i32,
}
use nuke.Net.Address.{IpAddress, from_scoped_bytes, from_number}
use nuke.Net.Bytes.{Stored, from_scoped_bytes-Stored}
use nuke.Net.Prefixes.{ipv6_of}

abbrev link_local_bytes : List ℕ
link_local_bytes = 254 ∷ 128 ∷ replicate 13 0 ++ 1 ∷ []

abbrev mapped_bytes : List ℕ
mapped_bytes = replicate 10 0 ++ 255 ∷ 255 ∷ 192 ∷ 168 ∷ 0 ∷ 1 ∷ []

abbrev link_local : IpAddress
link_local = ipv6_of (65152 ∷ 0 ∷ 0 ∷ 0 ∷ 0 ∷ 0 ∷ 0 ∷ 1 ∷ [])

abbrev mapped : IpAddress
mapped = ipv6_of (0 ∷ 0 ∷ 0 ∷ 0 ∷ 0 ∷ 65535 ∷ 49320 ∷ 1 ∷ [])

runs :
    (from_number (negsuc 0) ≡ throws out_of_range)
    × (host_to_network_i16 (pos 258) ≡ pos 513)
    × (host_to_network_i32 (pos 16909060) ≡ pos 131840)
unfolding from_number host_to_network_i16 host_to_network_i32 reverse_i16 reverse_i32 reverse_u16
    reverse_u32
runs = (refl, refl, refl)

from_scoped_bytes-Stored_example :
    Stored link_local_bytes (from_scoped_bytes link_local_bytes (pos 7))
from_scoped_bytes-Stored_example = from_scoped_bytes-Stored link_local_bytes (pos 7) (ground arith)
