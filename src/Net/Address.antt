-- ===== src/Net/Address.antt =====
-- System/Net/IPAddress.cpp: the address, its constructors, its bytes, its scope and its tests. A byte
-- is a number below 256, a span or vector is a list. `ToString`, which
-- returns an empty string, is not here.
use nuke.Base.{
  ℕ, zero, suc, ◌+◌, ◌*◌, ◌/◌, ◌%◌, ◌^◌, Bool, true, false, not, ◌&&◌, ◌||◌, ◌==◌, List, [], ◌∷◌,
  ◌++◌, bit_and, if◌then◌else◌, length, replicate,
}
use nuke.Base.Int.{ℤ, pos, ltb_ℤ, eqb_ℤ}
use nuke.Base.Word.{u8, u16, to_u32}
use nuke.Base.Memory.{index}
use nuke.Base.Result.{Result, ok, throws, throw_if, invalid_argument, out_of_range, ◌>>=◌, ◌>>◌}

abbrev pub ipv4_address_bytes : ℕ
ipv4_address_bytes = 4

abbrev pub ipv6_address_bytes : ℕ
ipv6_address_bytes = 16

abbrev pub number_of_labels : ℕ
number_of_labels = ipv6_address_bytes / 2

-- IPAddressImpl. `make_unique` gives every member its zero.
pub record IpAddress : Type 0 where
  pub address_or_scope_id : ℕ
  pub hash_code : ℤ
  pub to_string : List ℕ
  pub numbers : List ℕ

unfoldable pub empty_address : IpAddress
empty_address = record { address_or_scope_id = 0; hash_code = pos 0; to_string = []; numbers = [] }

-- SetPrivateAddress and SetPrivateScopeId share the member and forget what was derived from it.
unfoldable pub set_private_address : IpAddress → ℕ → IpAddress
set_private_address a value = record {
  address_or_scope_id = value;
  hash_code = pos 0;
  to_string = [];
  numbers = a.numbers;
}

unfoldable pub set_private_scope_id : IpAddress → ℕ → IpAddress
set_private_scope_id a value = record {
  address_or_scope_id = value;
  hash_code = pos 0;
  to_string = [];
  numbers = a.numbers;
}

unfoldable pub is_ipv4 : IpAddress → Bool
is_ipv4 a = length a.numbers == 0

unfoldable pub is_ipv6 : IpAddress → Bool
is_ipv6 a = not (length a.numbers == 0)

-- IPAddress(int64_t)
unfoldable pub from_number : ℤ → Result IpAddress
from_number new_address = do
  throw_if (ltb_ℤ new_address (pos 0) || ltb_ℤ (pos 0xFFFFFFFF) new_address) out_of_range
  ok (set_private_address empty_address (to_u32 new_address))

-- `*((int32_t*)address.data())` as a uint32_t on a little-endian machine.
unfoldable pub load_u32 : List ℕ → Result ℕ
load_u32 address = do
  b0 ← index address 0
  b1 ← index address 1
  b2 ← index address 2
  b3 ← index address 3
  ok (b0 + b1 * 2 ^ 8 + b2 * 2 ^ 16 + b3 * 2 ^ 24)

-- The labels from number `i` on, `count` of them.
unfoldable pub read_labels : List ℕ → (i count : ℕ) → Result (List ℕ)
read_labels address i zero = ok []
read_labels address i (suc count) = do
  high ← index address (i * 2)
  low ← index address (i * 2 + 1)
  rest ← read_labels address (suc i) count
  ok (u16 (high * 256 + low) ∷ rest)

-- The two branches of IPAddress(std::span<std::byte>, int64_t).
unfoldable pub from_ipv4_bytes : List ℕ → Result IpAddress
from_ipv4_bytes address = do value ← load_u32 address; ok (set_private_address empty_address value)

unfoldable pub from_ipv6_bytes : List ℕ → Result IpAddress
from_ipv6_bytes address = do
  labels ← read_labels address 0 number_of_labels
  ok (record {
    address_or_scope_id = empty_address.address_or_scope_id;
    hash_code = empty_address.hash_code;
    to_string = empty_address.to_string;
    numbers = labels;
  })

-- That constructor, which drops the scope id, and the one without a scope id.
unfoldable pub from_scoped_bytes : List ℕ → ℤ → Result IpAddress
from_scoped_bytes address scopeid =
    if length address == ipv4_address_bytes
    then from_ipv4_bytes address
    else if length address == ipv6_address_bytes
    then from_ipv6_bytes address
    else throws invalid_argument

unfoldable pub from_bytes : List ℕ → Result IpAddress
from_bytes address = from_scoped_bytes address (pos 0)

-- WriteIPv6Bytes
unfoldable pub write_ipv6_bytes : List ℕ → (i count : ℕ) → Result (List ℕ)
write_ipv6_bytes numbers i zero = ok []
write_ipv6_bytes numbers i (suc count) = do
  label ← index numbers i
  rest ← write_ipv6_bytes numbers (suc i) count
  ok (u8 (bit_and (label / 2 ^ 8) 0xFF) ∷ u8 (bit_and label 0xFF) ∷ rest)

-- WriteIPv4Bytes, on a little-endian machine.
unfoldable pub write_ipv4_bytes : ℕ → List ℕ
write_ipv4_bytes value =
    value % 2 ^ 8 ∷ value / 2 ^ 8 % 2 ^ 8 ∷ value / 2 ^ 16 % 2 ^ 8 ∷ value / 2 ^ 24 % 2 ^ 8 ∷ []

unfoldable pub get_address_bytes : IpAddress → Result (List ℕ)
get_address_bytes a =
    if is_ipv6 a
    then write_ipv6_bytes a.numbers 0 number_of_labels
    else ok (write_ipv4_bytes a.address_or_scope_id)

-- operator==, which compares every member.
unfoldable pub equal_lists : List ℕ → List ℕ → Bool
equal_lists [] [] = true
equal_lists [] (y ∷ ys) = false
equal_lists (x ∷ xs) [] = false
equal_lists (x ∷ xs) (y ∷ ys) = (x == y) && equal_lists xs ys

unfoldable pub equals : IpAddress → IpAddress → Bool
equals a b =
    (a.address_or_scope_id == b.address_or_scope_id)
    && eqb_ℤ a.hash_code b.hash_code
    && equal_lists a.to_string b.to_string
    && equal_lists a.numbers b.numbers

pub data AddressFamily : Type 0 where
  inter_network inter_network_v6 : AddressFamily

unfoldable pub address_family : IpAddress → AddressFamily
address_family a = if is_ipv4 a then inter_network else inter_network_v6

-- IsIPv4MappedToIPv6 for an IPv6 address: the loop from label `i`, `count` labels long, and the
-- comparison behind it.
unfoldable pub mapped_from : List ℕ → (i count : ℕ) → Result Bool
mapped_from numbers i zero = do label ← index numbers i; ok (label == 0xFFFF)
mapped_from numbers i (suc count) = do
  label ← index numbers i
  if not (label == 0) then ok false else mapped_from numbers (suc i) count

unfoldable pub is_ipv4_mapped_to_ipv6 : IpAddress → Result Bool
is_ipv4_mapped_to_ipv6 a = if is_ipv4 a then ok false else mapped_from a.numbers 0 5

-- The tests of the first label.
unfoldable pub first_label_is : List ℕ → (mask prefix : ℕ) → Result Bool
first_label_is numbers mask prefix = do label ← index numbers 0; ok (bit_and label mask == prefix)

unfoldable pub has_prefix : IpAddress → (mask prefix : ℕ) → Result Bool
has_prefix a mask prefix = if is_ipv6 a then first_label_is a.numbers mask prefix else ok false

unfoldable pub is_ipv6_link_local : IpAddress → Result Bool
is_ipv6_link_local a = has_prefix a 0xFFC0 0xFE80

unfoldable pub is_ipv6_multicast : IpAddress → Result Bool
is_ipv6_multicast a = has_prefix a 0xFF00 0xFF00

unfoldable pub is_ipv6_site_local : IpAddress → Result Bool
is_ipv6_site_local a = has_prefix a 0xFFC0 0xFEC0

unfoldable pub label_is : List ℕ → (i value : ℕ) → Result Bool
label_is numbers i value = do label ← index numbers i; ok (label == value)

unfoldable pub teredo_labels : List ℕ → Result Bool
teredo_labels numbers = do
  first ← label_is numbers 0 0x2001
  if first then label_is numbers 1 0 else ok false

unfoldable pub is_ipv6_teredo : IpAddress → Result Bool
is_ipv6_teredo a = if is_ipv6 a then teredo_labels a.numbers else ok false

unfoldable pub scope_id : IpAddress → Result ℤ
scope_id a = do throw_if (is_ipv4 a) invalid_argument; ok (pos a.address_or_scope_id)

unfoldable pub set_scope_id : IpAddress → ℤ → Result IpAddress
set_scope_id a value = do
  throw_if (is_ipv4 a) invalid_argument
  throw_if (ltb_ℤ value (pos 0) || ltb_ℤ (pos 0xFFFFFFFF) value) out_of_range
  ok (set_private_scope_id a (to_u32 value))

-- The predefined addresses, as the bytes that their construction is given.
abbrev pub any_bytes : List ℕ
any_bytes = 0 ∷ 0 ∷ 0 ∷ 0 ∷ []

abbrev pub loopback_bytes : List ℕ
loopback_bytes = 127 ∷ 0 ∷ 0 ∷ 1 ∷ []

abbrev pub broadcast_bytes : List ℕ
broadcast_bytes = 255 ∷ 255 ∷ 255 ∷ 255 ∷ []

abbrev pub ipv6_any_bytes : List ℕ
ipv6_any_bytes = replicate 16 0

abbrev pub ipv6_loopback_bytes : List ℕ
ipv6_loopback_bytes = replicate 15 0 ++ 1 ∷ []

unfoldable pub any : Result IpAddress
any = from_bytes any_bytes

unfoldable pub loopback : Result IpAddress
loopback = from_bytes loopback_bytes

unfoldable pub broadcast : Result IpAddress
broadcast = from_bytes broadcast_bytes

-- IPAddress::None
unfoldable pub no_address : Result IpAddress
no_address = broadcast

unfoldable pub ipv6_any : Result IpAddress
ipv6_any = from_bytes ipv6_any_bytes

unfoldable pub ipv6_loopback : Result IpAddress
ipv6_loopback = from_bytes ipv6_loopback_bytes

-- IPAddress::IPv6None
unfoldable pub no_ipv6_address : Result IpAddress
no_ipv6_address = ipv6_any

-- Parse: both branches drop what `inet_pton` reads.
unfoldable pub parse : List ℕ → Result IpAddress
parse text = no_address
