-- ===== src/Net/ByteOrder.antt =====
-- System/Buffers/Binary/BinaryPrimitives.cpp, System/BitConverter.cpp and the byte order functions of
-- System/Net/IPAddress.cpp. A value of `uintN_t` is its bit pattern.
use nuke.Base.{ℕ, ◌+◌, ◌*◌, ◌/◌, ◌^◌, Bool, true, bit_and, if◌then◌else◌}
use nuke.Base.Int.{ℤ}
use nuke.Base.Word.{u16, u32, u64, to_u16, to_u32, to_u64, of_u16, of_u32, of_u64}

-- BitConverter::IsLittleEndian. Nothing in the build defines BIGENDIAN.
abbrev pub is_little_endian : Bool
is_little_endian = true

-- ReverseEndianness(uint16_t): the operands are promoted to int before the cast.
unfoldable pub reverse_u16 : ℕ → ℕ
reverse_u16 value = u16 (value / 2 ^ 8 + value * 2 ^ 8)

-- ReverseEndianness(uint32_t). `>>` and `<<` bind tighter than `&`, so they shift the masks.
unfoldable pub reverse_u32 : ℕ → ℕ
reverse_u32 value =
    u32 (bit_and value (0x00FF00FF / 2 ^ 8) + bit_and value (u32 (0xFF00FF00 * 2 ^ 8)))

-- ReverseEndianness(uint64_t)
unfoldable pub reverse_u64 : ℕ → ℕ
reverse_u64 value =
    u64 (u64 (reverse_u32 (u32 value) * 2 ^ 32) + reverse_u32 (u32 (value / 2 ^ 32)))

unfoldable pub reverse_i16 : ℤ → ℤ
reverse_i16 value = of_u16 (reverse_u16 (to_u16 value))

unfoldable pub reverse_i32 : ℤ → ℤ
reverse_i32 value = of_u32 (reverse_u32 (to_u32 value))

unfoldable pub reverse_i64 : ℤ → ℤ
reverse_i64 value = of_u64 (reverse_u64 (to_u64 value))

-- The one-byte overloads.
unfoldable pub reverse_u8 : ℕ → ℕ
reverse_u8 value = value

unfoldable pub reverse_i8 : ℤ → ℤ
reverse_i8 value = value

unfoldable pub host_to_network_i64 : ℤ → ℤ
host_to_network_i64 host = if is_little_endian then reverse_i64 host else host

unfoldable pub host_to_network_i32 : ℤ → ℤ
host_to_network_i32 host = if is_little_endian then reverse_i32 host else host

unfoldable pub host_to_network_i16 : ℤ → ℤ
host_to_network_i16 host = if is_little_endian then reverse_i16 host else host

unfoldable pub network_to_host_i64 : ℤ → ℤ
network_to_host_i64 network = host_to_network_i64 network

unfoldable pub network_to_host_i32 : ℤ → ℤ
network_to_host_i32 network = host_to_network_i32 network

unfoldable pub network_to_host_i16 : ℤ → ℤ
network_to_host_i16 network = host_to_network_i16 network
