-- ===== src/Sockets.antt =====
-- CrossPlatform/SocketApi.cpp: the loops around send, sendto, recv and recvfrom, on Linux. What the
-- system calls answer is a list.
pub mod Progress
pub mod Stream
pub mod Filling
pub mod Polling
pub mod Client
pub mod Tests
use nuke.Base.{ℕ, ◌∷◌, ◌==◌, Bool, List, [], Option, none, some, if◌then◌else◌}
use nuke.Base.Int.{ℤ, pos, ◌+ℤ◌, ◌-ℤ◌, eqb_ℤ}
use nuke.Base.Word.{u16, i32, to_u64}

-- -1, or the number of bytes that the call moved.
pub data Reply : Type 0 where
  error : Reply
  moved : ℕ → Reply

-- The place in the buffer at which a call begins, and the size that it is given.
pub record Request : Type 0 where
  pub offset : ℤ
  pub size : ℕ

-- The calls made, and what was returned, if the loop has ended: if not, the last call has no answer.
pub record Run : Type 0 where
  pub requests : List Request
  pub returned : Option ℤ

unfoldable pub request : (length remaining : ℤ) → Request
request length remaining = record { offset = i32 (length -ℤ remaining); size = to_u64 length }

-- `remaining` and `total` are the variables toBeSentByteCount and totalSentBytesCount.
unfoldable pub transfer_from : (length remaining total : ℤ) → List Reply → Run
transfer_from length remaining total [] = record {
  requests = request length remaining ∷ [];
  returned = none;
}
transfer_from length remaining total (error ∷ replies) = record {
  requests = request length remaining ∷ [];
  returned = some total;
}
transfer_from length remaining total (moved count ∷ replies) =
    let new_total = i32 (total +ℤ pos count) in
    let new_remaining = i32 (remaining -ℤ pos count) in
    let rest = transfer_from length new_remaining new_total replies in
    if eqb_ℤ new_remaining (pos 0)
    then (record { requests = request length remaining ∷ []; returned = some new_total })
    else (record { requests = request length remaining ∷ rest.requests; returned = rest.returned })

unfoldable pub send : (length : ℤ) → List Reply → Run
send length replies = transfer_from length length (pos 0) replies

unfoldable pub recv : (size : ℤ) → List Reply → Run
recv size replies = transfer_from size size (pos 0) replies

-- The family is AF_INET. The port and the address are in network order.
pub record SocketAddress : Type 0 where
  pub port : ℕ
  pub address : ℕ

abbrev pub inaddr_any : ℕ
inaddr_any = 0

-- `htons` and `inet_addr` are the C library's.
unfoldable pub send_to :
    {String : Type 0} (htons : ℕ → ℕ) (inet_addr : String → ℕ) (address : String) (port : ℕ)
    (length : ℤ)
    → List Reply
    → record { destination : SocketAddress; run : Run }
send_to htons inet_addr address port length replies = record {
  destination = record { port = htons (u16 port); address = inet_addr address };
  run = transfer_from length length (pos 0) replies;
}

-- The answer of bind is not read.
unfoldable pub recv_from :
    (htons : ℕ → ℕ) (port : ℕ) (size : ℤ)
    → List Reply
    → record { bound_to : SocketAddress; run : Run }
recv_from htons port size replies = record {
  bound_to = record { port = htons (u16 port); address = inaddr_any };
  run = transfer_from size size (pos 0) replies;
}
