-- ===== src/Dns.antt =====
-- System/Net/Dns.cpp. The compiler lays out the members of 16 bits on a little-endian machine from the
-- lowest bit, and a number of two bytes with its low byte first.
pub mod Query
mod Tests
use nuke.Base.{
  ℕ, ◌+◌, ◌-◌, ◌*◌, ◌/◌, ◌%◌, ◌^◌, List, [], ◌∷◌, ◌++◌, length, replicate, Option, none, some,
}
use nuke.Base.Int.{ℤ, pos}
use nuke.Base.Word.{u16, u32}
use nuke.Sockets.{Reply, SocketAddress, Run, send_to, recv_from}

pub record DnsMessageHeader : Type 0 where
  pub id : ℕ
  pub qr : ℕ
  pub op_code : ℕ
  pub aa : ℕ
  pub tc : ℕ
  pub rd : ℕ
  pub ra : ℕ
  pub z : ℕ
  pub rcode : ℕ
  pub qdcount : ℕ
  pub ancount : ℕ
  pub nscount : ℕ
  pub arcount : ℕ

-- The word of the bit fields.
abbrev pub bit_fields : DnsMessageHeader → ℕ
bit_fields h =
    h.qr % 2
    + h.op_code % 16 * 2
    + h.aa % 2 * 2 ^ 5
    + h.tc % 2 * 2 ^ 6
    + h.rd % 2 * 2 ^ 7
    + h.ra % 2 * 2 ^ 8
    + h.z % 8 * 2 ^ 9
    + h.rcode % 16 * 2 ^ 12

abbrev pub word_bytes : ℕ → List ℕ
word_bytes w = w % 256 ∷ w / 256 ∷ []

unfoldable pub header_bytes : DnsMessageHeader → List ℕ
header_bytes h =
    word_bytes h.id
    ++ word_bytes (bit_fields h)
    ++ word_bytes h.qdcount
    ++ word_bytes h.ancount
    ++ word_bytes h.nscount
    ++ word_bytes h.arcount

abbrev pub dns_default_port : ℕ
dns_default_port = 53

abbrev pub max_dns_pack_length : ℕ
max_dns_pack_length = 512

-- DnsMessage: the buffer of zeros with the header at its start.
unfoldable pub message : DnsMessageHeader → List ℕ
message h = header_bytes h ++ replicate (max_dns_pack_length - 12) 0

-- What a call of Resolve leaves: the counter, the message, and the two transfers.
pub record Resolved : Type 0 where
  pub dns_id : ℕ
  pub message : List ℕ
  pub destination : SocketAddress
  pub sent : Run
  pub bound_to : SocketAddress
  pub received : Run

-- Calls that are made only if the calls before them came to an end.
abbrev pub only_after : (returned : Option ℤ) → Run → Run
only_after none run = record { requests = []; returned = none }
only_after (some count) run = run

-- `htons` and `inet_addr` are the C library's.
module _ {String : Type 0} (htons : ℕ → ℕ) (inet_addr : String → ℕ) where
  abbrev pub query_header : (dns_id : ℕ) → DnsMessageHeader
  query_header dns_id = record {
    id = u16 dns_id;
    qr = 0;
    op_code = 0;
    aa = 0;
    tc = 0;
    rd = 1;
    ra = 0;
    z = 0;
    rcode = 0;
    qdcount = htons 1;
    ancount = 0;
    nscount = 0;
    arcount = 0;
  }

  -- Resolve, which does not read the name to resolve, nor what it receives.
  unfoldable pub resolve :
      (dns_id : ℕ) (host_name dns_ip : String) (send_replies receive_replies : List Reply)
      → Resolved
  resolve dns_id host_name dns_ip send_replies receive_replies =
      let sent =
        send_to htons inet_addr dns_ip dns_default_port (pos max_dns_pack_length) send_replies in
      let received = recv_from htons dns_default_port (pos max_dns_pack_length) receive_replies in
      record {
        dns_id = u32 (dns_id + 1);
        message = message (query_header dns_id);
        destination = sent.destination;
        sent = sent.run;
        bound_to = received.bound_to;
        received = only_after sent.run.returned received.run;
      }
