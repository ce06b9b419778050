-- ===== src/Net/Bytes.antt =====
-- The constructors and `GetAddressBytes` of System/Net/IPAddress.cpp against each other.
use nuke.Base.{
  ℕ, zero, suc, ◌+◌, ◌*◌, ◌/◌, ◌^◌, ◌<◌, ◌≡◌, ◌≢◌, refl, arith, List, [], ◌∷◌, length, ◌⊎◌, inl,
  inr, ap, bit_and,
}
use nuke.Base.Int.{ℤ}
use nuke.Base.Word.{u8, u16}
use nuke.Base.Bits.{bit_and_mask}
use nuke.Base.Memory.{index, AllBytes}
use nuke.Base.Result.{Result, ok, throws, invalid_argument}
use nuke.Net.Address.{
  IpAddress, load_u32, read_labels, write_ipv6_bytes, write_ipv4_bytes, from_ipv4_bytes,
  from_ipv6_bytes, from_scoped_bytes, get_address_bytes, is_ipv6, set_private_address,
  empty_address,
}

-- What a constructor makes of bytes: an address that gives them back, or an exception if they are
-- neither 4 nor 16.
pub data Stored (bytes : List ℕ) : Result IpAddress → Type 0 where
  gives_back : (a : IpAddress) → get_address_bytes a ≡ ok bytes → Stored bytes (ok a)
  wrong_length : length bytes ≢ 4 → length bytes ≢ 16 → Stored bytes (throws invalid_argument)

pub read_labels-behind :
    (x y : ℕ) (bs : List ℕ) (i count : ℕ)
    → read_labels (x ∷ y ∷ bs) (suc i) count ≡ read_labels bs i count
unfolding read_labels index
read_labels-behind x y bs i zero = refl
read_labels-behind x y bs i (suc count) =
    let low : suc i * 2 + 1 ≡ suc (suc (i * 2 + 1)) = omega arith in
    let high : suc i * 2 ≡ suc (suc (i * 2)) = omega arith in
    rw (low, high, read_labels-behind x y bs (suc i) count) refl

pub write_ipv6_bytes-behind :
    (x : ℕ) (ls : List ℕ) (i count : ℕ)
    → write_ipv6_bytes (x ∷ ls) (suc i) count ≡ write_ipv6_bytes ls i count
unfolding write_ipv6_bytes index
write_ipv6_bytes-behind x ls i zero = refl
write_ipv6_bytes-behind x ls i (suc count) = rw (write_ipv6_bytes-behind x ls (suc i) count) refl

-- The labels that are read from `2 * count` bytes, and that are written as the same bytes.
abbrev pub Labels : List ℕ → ℕ → Type 0
Labels bs count =
    (ls : List ℕ) × (read_labels bs 0 count ≡ ok ls)
    × (length ls ≡ count)
    × (write_ipv6_bytes ls 0 count ≡ ok bs)

label_bytes :
    (x y : ℕ)
    → x < 256
    → y < 256
    → (u8 (bit_and (u16 (x * 256 + y) / 2 ^ 8) 255) ≡ x)
      × (u8 (bit_and (u16 (x * 256 + y)) 255) ≡ y)
label_bytes x y hx hy = (
  omega (arith, bit_and_mask 8 (u16 (x * 256 + y) / 2 ^ 8)),
  omega (arith, bit_and_mask 8 (u16 (x * 256 + y))),
)

pub Labels-read_back :
    (bs : List ℕ) (count : ℕ) → AllBytes bs → length bs ≡ count * 2 → Labels bs count
unfolding read_labels write_ipv6_bytes index
Labels-read_back [] zero h len = ([], refl, refl, refl)
Labels-read_back (x ∷ bs) zero h len = absurd (omega arith)
Labels-read_back [] (suc count) h len = absurd (omega arith)
Labels-read_back (x ∷ []) (suc count) h len = absurd (omega arith)
Labels-read_back (x ∷ y ∷ bs) (suc count) (hx, (hy, h)) len =
    let (ls, read, size, write) = Labels-read_back bs count h (omega arith) in
    let (first, second) = label_bytes x y hx hy in
    (
      u16 (x * 256 + y) ∷ ls,
      rw (read_labels-behind x y bs 0 count, read) refl,
      omega arith,
      rw (write_ipv6_bytes-behind (u16 (x * 256 + y)) ls 0 count, write, first, second) refl,
    )

ipv4_bytes_read_back :
    (bs : List ℕ)
    → AllBytes bs
    → length bs ≡ 4
    → (value : ℕ) × (load_u32 bs ≡ ok value) × (value < 2 ^ 32) × (write_ipv4_bytes value ≡ bs)
unfolding load_u32 write_ipv4_bytes index
ipv4_bytes_read_back [] h len = absurd (omega arith)
ipv4_bytes_read_back (b0 ∷ []) h len = absurd (omega arith)
ipv4_bytes_read_back (b0 ∷ b1 ∷ []) h len = absurd (omega arith)
ipv4_bytes_read_back (b0 ∷ b1 ∷ b2 ∷ []) h len = absurd (omega arith)
ipv4_bytes_read_back (b0 ∷ b1 ∷ b2 ∷ b3 ∷ b4 ∷ bs) h len = absurd (omega arith)
ipv4_bytes_read_back (b0 ∷ b1 ∷ b2 ∷ b3 ∷ []) (h0, (h1, (h2, (h3, _)))) len =
    (b0 + b1 * 2 ^ 8 + b2 * 2 ^ 16 + b3 * 2 ^ 24, refl, omega arith, ground arith)

Length-cases : (n : ℕ) → (n ≡ 4) ⊎ ((n ≡ 16) ⊎ ((n ≢ 4) × (n ≢ 16)))
Length-cases n = ground arith

from_ipv4_bytes-Stored :
    (bs : List ℕ) (scopeid : ℤ)
    → AllBytes bs
    → length bs ≡ 4
    → Stored bs (from_scoped_bytes bs scopeid)
unfolding from_scoped_bytes from_ipv4_bytes get_address_bytes is_ipv6 set_private_address
    empty_address
from_ipv4_bytes-Stored bs scopeid h len =
    let (value, load, _, write) = ipv4_bytes_read_back bs h len in
    rw (len, load) (gives_back _ (ap ok write))

from_ipv6_bytes-Stored :
    (bs : List ℕ) (scopeid : ℤ)
    → AllBytes bs
    → length bs ≡ 16
    → Stored bs (from_scoped_bytes bs scopeid)
unfolding from_scoped_bytes from_ipv6_bytes get_address_bytes is_ipv6 empty_address
from_ipv6_bytes-Stored bs scopeid h len =
    let (ls, read, size, write) = Labels-read_back bs 8 h len in
    rw (len, read) (gives_back _ (rw size write))

from_scoped_bytes_refuses :
    (bs : List ℕ) (scopeid : ℤ)
    → length bs ≢ 4
    → length bs ≢ 16
    → from_scoped_bytes bs scopeid ≡ throws invalid_argument
unfolding from_scoped_bytes
from_scoped_bytes_refuses bs scopeid not4 not16 = ground arith

-- Whatever bytes and scope id the constructor is given: 4 or 16 bytes make an address, and
-- `GetAddressBytes` gives them back; any other number of bytes throws `invalid_argument`.
pub from_scoped_bytes-Stored :
    (bs : List ℕ) (scopeid : ℤ) → AllBytes bs → Stored bs (from_scoped_bytes bs scopeid)
unfolding from_scoped_bytes
from_scoped_bytes-Stored bs scopeid h = elim (Length-cases (length bs)) [
  | inl four ↦ from_ipv4_bytes-Stored bs scopeid h four
  | inr (inl sixteen) ↦ from_ipv6_bytes-Stored bs scopeid h sixteen
  | inr (inr (not4, not16)) ↦
      rw (from_scoped_bytes_refuses bs scopeid not4 not16) (wrong_length not4 not16)
]
