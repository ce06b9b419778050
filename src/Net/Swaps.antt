-- ===== src/Net/Swaps.antt =====
-- What the byte order functions do to the bytes of a value.
use nuke.Base.{ℕ, ◌+◌, ◌*◌, ◌/◌, ◌%◌, ◌^◌, ◌<◌, ◌≡◌, arith}
use nuke.Base.Int.{ℤ}
use nuke.Base.Bits.{bit_and_mask, bit_and_high}
use nuke.Base.Word.{IsInt16, to_u16}
use nuke.Net.ByteOrder.{
  reverse_u16, reverse_u32, reverse_i16, host_to_network_i16, network_to_host_i16,
}

-- `ReverseEndianness` exchanges the two bytes of a uint16_t.
pub reverse_u16_bytes :
    (high low : ℕ) → high < 256 → low < 256 → reverse_u16 (high * 256 + low) ≡ low * 256 + high
unfolding reverse_u16
reverse_u16_bytes high low hh hl = omega arith

-- For an int16_t, `NetworkToHostOrder` undoes `HostToNetworkOrder`, which exchanges its two bytes.
pub network_to_host-host_to_network :
    (x : ℤ)
    → IsInt16 x
    → (network_to_host_i16 (host_to_network_i16 x) ≡ x)
      × (to_u16 (host_to_network_i16 x) / 256 ≡ to_u16 x % 256)
      × (to_u16 (host_to_network_i16 x) % 256 ≡ to_u16 x / 256)
unfolding network_to_host_i16 host_to_network_i16 reverse_i16 reverse_u16
network_to_host-host_to_network x h = (ground arith, ground arith, ground arith)

-- On a word of four bytes the 32-bit `ReverseEndianness` keeps the two middle bytes in their
-- places and clears the outer ones.
pub reverse_u32_bytes :
    (b3 b2 b1 b0 : ℕ)
    → b3 < 256
    → b2 < 256
    → b1 < 256
    → b0 < 256
    → reverse_u32 (b3 * 2 ^ 24 + b2 * 2 ^ 16 + b1 * 2 ^ 8 + b0) ≡ b2 * 2 ^ 16 + b1 * 2 ^ 8
unfolding reverse_u32
reverse_u32_bytes b3 b2 b1 b0 h3 h2 h1 h0 =
    let value = b3 * 2 ^ 24 + b2 * 2 ^ 16 + b1 * 2 ^ 8 + b0 in
    omega (
      arith,
      bit_and_high 8 value 255,
      bit_and_mask 8 (value / 256),
      bit_and_high 16 value 255,
      bit_and_mask 8 (value / 65536),
    )
