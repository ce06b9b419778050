-- ===== src/Net/Prefixes.antt =====
-- The tests of IPv6 addresses in System/Net/IPAddress.cpp against the bytes of the prefixes.
use nuke.Base.{
  ℕ, zero, suc, ◌+◌, ◌*◌, ◌/◌, ◌≤◌, ◌<◌, ◌≡◌, refl, arith, Bool, true, false, List, [], ◌∷◌, length,
  ◌∙◌, bit_and, ◌==◌, ◌&&◌, not, sym, if◌then◌else◌,
}
use nuke.Base.Int.{ℤ, pos}
use nuke.Base.Word.{u16}
use nuke.Base.Bits.{bit_and_mask, bit_and_high}
use nuke.Base.Memory.{index, AllBytes}
use nuke.Base.Result.{Result, ok}
use nuke.Net.Address.{
  IpAddress, read_labels, from_ipv6_bytes, from_scoped_bytes, is_ipv6, is_ipv4, empty_address,
  is_ipv6_link_local, is_ipv6_multicast, is_ipv6_site_local, is_ipv6_teredo, first_label_is,
  has_prefix, teredo_labels, label_is, mapped_from, is_ipv4_mapped_to_ipv6,
}
use nuke.Net.Bytes.{Labels-read_back, read_labels-behind}

abbrev pub ipv6_of : List ℕ → IpAddress
ipv6_of ls = record { address_or_scope_id = 0; hash_code = pos 0; to_string = []; numbers = ls }

ok-injective {ℓ} : {A : Type ℓ} {a b : A} → Result.ok a ≡ ok b → a ≡ b
ok-injective e = cc

-- An address of 16 bytes begins with the label of the first two and keeps those of the rest.
pub from_scoped_bytes-labels :
    (x y : ℕ) (bs : List ℕ) (scopeid : ℤ) {a : IpAddress}
    → AllBytes (x ∷ y ∷ bs)
    → length bs ≡ 14
    → from_scoped_bytes (x ∷ y ∷ bs) scopeid ≡ ok a
    → (ls : List ℕ) × (read_labels bs 0 7 ≡ ok ls) × (a ≡ ipv6_of (u16 (x * 256 + y) ∷ ls))
unfolding from_scoped_bytes from_ipv6_bytes empty_address read_labels index
from_scoped_bytes-labels x y bs scopeid {a} (hx, (hy, h)) len made =
    let (ls, read, size, write) = Labels-read_back bs 7 h len in
    let stored : from_scoped_bytes (x ∷ y ∷ bs) scopeid ≡ ok (ipv6_of (u16 (x * 256 + y) ∷ ls)) =
      rw (len, read_labels-behind x y bs 0 7, read) refl in
    (ls, read, ok-injective (sym made ∙ stored))

-- The masks leave the first ten or the first eight bits of a label.
first_ten_bits :
    (x y : ℕ) → x < 256 → y < 256 → bit_and (u16 (x * 256 + y)) 65472 ≡ x * 256 + y / 64 * 64
first_ten_bits x y hx hy =
    omega (arith, bit_and_high 6 (u16 (x * 256 + y)) 1023, bit_and_mask 10 (u16 (x * 256 + y) / 64))

first_eight_bits : (x y : ℕ) → x < 256 → y < 256 → bit_and (u16 (x * 256 + y)) 65280 ≡ x * 256
first_eight_bits x y hx hy =
    omega (arith, bit_and_high 8 (u16 (x * 256 + y)) 255, bit_and_mask 8 (u16 (x * 256 + y) / 256))

-- For an address made of 16 bytes `IsIPv6LinkLocal`, `IsIPv6SiteLocal` and `IsIPv6Multicast` test
-- the bytes for the prefixes fe80::/10, fec0::/10 and ff00::/8.
pub from_scoped_bytes-prefixes :
    (x y : ℕ) (bs : List ℕ) (scopeid : ℤ) {a : IpAddress}
    → AllBytes (x ∷ y ∷ bs)
    → length bs ≡ 14
    → from_scoped_bytes (x ∷ y ∷ bs) scopeid ≡ ok a
    → (is_ipv6_link_local a ≡ ok ((x == 254) && (y / 64 == 2)))
      × (is_ipv6_site_local a ≡ ok ((x == 254) && (y / 64 == 3)))
      × (is_ipv6_multicast a ≡ ok (x == 255))
unfolding is_ipv6_link_local is_ipv6_site_local is_ipv6_multicast has_prefix first_label_is is_ipv6
    index read_labels
from_scoped_bytes-prefixes x y bs scopeid {a} (hx, (hy, h)) len made =
    let (ls, read, is_a) = from_scoped_bytes-labels x y bs scopeid (hx, (hy, h)) len made in
    let ten = first_ten_bits x y hx hy in
    let eight = first_eight_bits x y hx hy in rw is_a (ground arith, ground arith, ground arith)

-- The labels of an even number of bytes.
abbrev pub labels_of : List ℕ → List ℕ
labels_of [] = []
labels_of (x ∷ []) = []
labels_of (x ∷ y ∷ bs) = u16 (x * 256 + y) ∷ labels_of bs

read_labels-labels_of :
    (bs : List ℕ) (count : ℕ) → length bs ≡ count * 2 → read_labels bs 0 count ≡ ok (labels_of bs)
unfolding read_labels index
read_labels-labels_of [] zero len = refl
read_labels-labels_of (x ∷ bs) zero len = absurd (omega arith)
read_labels-labels_of [] (suc count) len = absurd (omega arith)
read_labels-labels_of (x ∷ []) (suc count) len = absurd (omega arith)
read_labels-labels_of (x ∷ y ∷ bs) (suc count) len =
    rw (read_labels-behind x y bs 0 count, read_labels-labels_of bs count (omega arith)) refl

-- `count` zero labels in front of one of ones, as bytes.
abbrev pub mapped_prefix : List ℕ → ℕ → Bool
mapped_prefix [] count = false
mapped_prefix (x ∷ []) count = false
mapped_prefix (x ∷ y ∷ bs) zero = (x == 255) && (y == 255)
mapped_prefix (x ∷ y ∷ bs) (suc count) = (x == 0) && (y == 0) && mapped_prefix bs count

mapped_from-behind :
    (l : ℕ) (ls : List ℕ) (i count : ℕ)
    → mapped_from (l ∷ ls) (suc i) count ≡ mapped_from ls i count
unfolding mapped_from index
mapped_from-behind l ls i zero = refl
mapped_from-behind l ls i (suc count) = rw (mapped_from-behind l ls (suc i) count) refl

zero_label :
    (x y : ℕ) (p : Bool)
    → x < 256
    → y < 256
    → (if not (u16 (x * 256 + y) == 0) then ok false else ok p) ≡ ok ((x == 0) && (y == 0) && p)
zero_label x y true hx hy = ground arith
zero_label x y false hx hy = ground arith

mapped_from-labels_of :
    (bs : List ℕ) (count : ℕ)
    → AllBytes bs
    → count * 2 + 2 ≤ length bs
    → mapped_from (labels_of bs) 0 count ≡ ok (mapped_prefix bs count)
unfolding mapped_from index
mapped_from-labels_of [] count h len = absurd (omega arith)
mapped_from-labels_of (x ∷ []) count h len = absurd (omega arith)
mapped_from-labels_of (x ∷ y ∷ bs) zero (hx, (hy, h)) len = ground arith
mapped_from-labels_of (x ∷ y ∷ bs) (suc count) (hx, (hy, h)) len =
    let rest = mapped_from-labels_of bs count h (omega arith) in
    rw (mapped_from-behind (u16 (x * 256 + y)) (labels_of bs) 0 count, rest)
      (zero_label x y (mapped_prefix bs count) hx hy)

is_ipv4-ipv6_of : (l : ℕ) (ls : List ℕ) → is_ipv4 (ipv6_of (l ∷ ls)) ≡ false
unfolding is_ipv4
is_ipv4-ipv6_of l ls = ground arith

mapped-labels_of :
    (x y : ℕ) (bs : List ℕ) (count : ℕ)
    → AllBytes (x ∷ y ∷ bs)
    → count ≡ 5
    → 12 ≤ length (x ∷ y ∷ bs)
    → is_ipv4_mapped_to_ipv6 (ipv6_of (labels_of (x ∷ y ∷ bs)))
      ≡ ok (mapped_prefix (x ∷ y ∷ bs) count)
unfolding is_ipv4_mapped_to_ipv6
mapped-labels_of x y bs count h five len =
    rw (is_ipv4-ipv6_of (u16 (x * 256 + y)) (labels_of bs), sym five)
      (mapped_from-labels_of (x ∷ y ∷ bs) count h (omega arith))

teredo-labels_of :
    (x y z w : ℕ) (bs : List ℕ)
    → x < 256
    → y < 256
    → z < 256
    → w < 256
    → is_ipv6_teredo (ipv6_of (labels_of (x ∷ y ∷ z ∷ w ∷ bs)))
      ≡ ok ((x == 32) && (y == 1) && (z == 0) && (w == 0))
unfolding is_ipv6_teredo is_ipv6 teredo_labels label_is index
teredo-labels_of x y z w bs hx hy hz hw = ground arith

-- For an address made of 16 bytes `IsIPv4MappedToIPv6` tests for ten zero bytes and two bytes 255
-- at the start, and `IsIPv6Teredo` for the bytes 32, 1, 0, 0.
pub from_scoped_bytes-mapped :
    (x y z w : ℕ) (bs : List ℕ) (scopeid : ℤ) {a : IpAddress}
    → AllBytes (x ∷ y ∷ z ∷ w ∷ bs)
    → length bs ≡ 12
    → from_scoped_bytes (x ∷ y ∷ z ∷ w ∷ bs) scopeid ≡ ok a
    → (is_ipv4_mapped_to_ipv6 a ≡ ok (mapped_prefix (x ∷ y ∷ z ∷ w ∷ bs) 5))
      × (is_ipv6_teredo a ≡ ok ((x == 32) && (y == 1) && (z == 0) && (w == 0)))
from_scoped_bytes-mapped x y z w bs scopeid {a} h len made =
    let (ls, read, is_a) = from_scoped_bytes-labels x y (z ∷ w ∷ bs) scopeid h (omega arith) made in
    let is_labels = ok-injective (sym read ∙ read_labels-labels_of (z ∷ w ∷ bs) 7 (omega arith)) in
    let (hx, (hy, (hz, (hw, rest)))) = h in
    rw (is_a, is_labels)
      (
        mapped-labels_of x y (z ∷ w ∷ bs) 5 h refl (omega arith),
        teredo-labels_of x y z w bs hx hy hz hw,
      )
