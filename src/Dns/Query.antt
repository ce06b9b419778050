-- ===== src/Dns/Query.antt =====
-- What a server reads in the query of Resolve, and how Resolve receives an answer.
use nuke.Base.{
  ℕ, ◌+◌, ◌*◌, ◌/◌, ◌%◌, ◌<◌, ◌^◌, ◌≡◌, ◌≢◌, refl, ap, arith, List, [], ◌∷◌, Option, none, some,
  get_or,
}
use nuke.Base.Int.{ℤ, pos}
use nuke.Base.Word.{u16}
use nuke.Sockets.{Reply, Run, moved, recv_from}
use nuke.Sockets.Progress.{runs_on_from}
use nuke.Dns.{message, header_bytes, query_header, resolve, only_after, dns_default_port}

-- RFC 1035, 4.1.1: a message's identifier, its first and last bit fields, and the number of questions.
abbrev pub rfc_id : List ℕ → ℕ
rfc_id bytes = get_or bytes 0 0 * 256 + get_or bytes 1 0

abbrev pub rfc_is_response : List ℕ → ℕ
rfc_is_response bytes = get_or bytes 2 0 / 128 % 2

abbrev pub rfc_recursion_desired : List ℕ → ℕ
rfc_recursion_desired bytes = get_or bytes 2 0 % 2

abbrev pub rfc_question_count : List ℕ → ℕ
rfc_question_count bytes = get_or bytes 4 0 * 256 + get_or bytes 5 0

-- A response with one question and without recursion, whose identifier has its bytes exchanged.
pub record IsMisread (dns_id : ℕ) (bytes : List ℕ) : Type 0 where
  pub is_response : rfc_is_response bytes ≡ 1
  pub no_recursion : rfc_recursion_desired bytes ≡ 0
  pub one_question : rfc_question_count bytes ≡ 1
  pub exchanged : rfc_id bytes ≡ u16 dns_id % 256 * 256 + u16 dns_id / 256

module _ {String : Type 0} (htons : ℕ → ℕ) (inet_addr : String → ℕ) where
  message-IsMisread :
      (dns_id : ℕ)
      → htons 1 ≡ 256
      → IsMisread dns_id (message (query_header htons inet_addr dns_id))
  unfolding message header_bytes
  message-IsMisread dns_id swaps = record {
    is_response = ground (arith, swaps);
    no_recursion = ground (arith, swaps);
    one_question = ground (arith, swaps);
    exchanged = ground (arith, swaps);
  }

  received_waits :
      (count : ℕ)
      → count < 2 ^ 31
      → count ≢ 512
      → (recv_from htons dns_default_port (pos 512) (moved count ∷ [])).run.returned ≡ none
  unfolding recv_from
  received_waits count small differs =
      ap (λ (r : Run). r.returned)
        (runs_on_from 512 (omega arith) 0 (count ∷ []) (omega (arith, small))
          (λ hits. differs (omega (arith, hits)), tt))

  only_after-waits :
      (returned : Option ℤ) (run : Run)
      → run.returned ≡ none
      → (only_after returned run).returned ≡ none
  only_after-waits none run waits = refl
  only_after-waits (some count) run waits = waits

  -- If `htons` exchanges the bytes of 1, a server reads the message of Resolve as a response with one
  -- question and without recursion, whose identifier is the counter's with the bytes exchanged; and
  -- Resolve does not return after an answer of fewer than 2^31 bytes that is not 512 bytes long.
  pub resolve-IsMisread :
      (dns_id : ℕ) (host_name dns_ip : String) (send_replies : List Reply) (count : ℕ)
      → htons 1 ≡ 256
      → count < 2 ^ 31
      → count ≢ 512
      → IsMisread dns_id
          (resolve htons inet_addr dns_id host_name dns_ip send_replies (moved count ∷ [])).message
        × ((resolve htons inet_addr dns_id host_name dns_ip send_replies
              (moved count ∷ [])).received.returned
            ≡ none)
  unfolding resolve
  resolve-IsMisread dns_id host_name dns_ip send_replies count swaps small differs =
      (message-IsMisread dns_id swaps, only_after-waits _ _ (received_waits count small differs))
