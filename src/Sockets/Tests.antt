-- ===== src/Sockets/Tests.antt =====
-- Runs of the socket calls and of a client.
use nuke.Base.{ℕ, ◌+◌, ◌≡◌, refl, arith, true, false, List, [], ◌∷◌, Option, none, some}
use nuke.Base.Int.{pos}
use nuke.Base.Result.{ok, ◌>>=◌}
use nuke.Sockets.{error, moved, send, recv}
use nuke.Sockets.Progress.{IsRunOfEach, both_run_on, requests_from}
use nuke.Sockets.Filling.{fill, recv_fills}
use nuke.Sockets.Stream.{IsDelivered, send_delivers}
use nuke.Sockets.Client.{new_client, connect, create_tcp_socket, destroy}
use nuke.Sockets.Client.Lifetime.{
  then_destroy, contains, open_another, destroy_once_leaks, destroy_closes_another,
}

abbrev memory : List ℕ
memory = 1 ∷ 2 ∷ 3 ∷ 4 ∷ 5 ∷ 6 ∷ 7 ∷ []

-- Five bytes, sent by two calls.
send_delivers_example :
    IsDelivered 5
      (omega arith)
      memory
      (send (pos 5) (moved 2 ∷ moved 3 ∷ error ∷ []))
      (recv (pos 5) (moved 2 ∷ moved 3 ∷ error ∷ []))
      (2 ∷ 3 ∷ [])
send_delivers_example =
    send_delivers 5 (omega arith) memory (2 ∷ []) 3 (error ∷ []) (omega arith) refl

-- The peer closes its end behind two bytes, so each call moves nothing.
both_run_on_example :
    IsRunOfEach 5
      (moved 2 ∷ moved 0 ∷ moved 0 ∷ [])
      (record { requests = requests_from 5 0 (2 ∷ 0 ∷ 0 ∷ []); returned = none })
both_run_on_example =
    both_run_on 5 (omega arith) (2 ∷ 0 ∷ 0 ∷ []) (omega arith)
      (omega arith, (omega arith, (omega arith, tt)))

-- Descriptors 0, 1 and 2 are open, and the next ones are 3 and 4.
abbrev standard : List ℕ
standard = 2 ∷ 1 ∷ 0 ∷ []

abbrev next_number : List ℕ → Option ℕ
next_number [] = some 0
next_number (n ∷ ns) = some (n + 1)

destroy_once_leaks_example :
    (then_destroy
        (connect next_number true true (record { client = new_client; descriptors = standard }))
      ≡ ok standard)
    × (then_destroy (
          connect next_number true true (record { client = new_client; descriptors = standard })
          >>= connect next_number true true)
        ≡ ok (3 ∷ standard))
destroy_once_leaks_example =
    destroy_once_leaks next_number new_client standard 3 refl refl 4 refl refl

destroy_closes_another_example :
    (then_destroy (
        connect next_number true false (record { client = new_client; descriptors = standard })
        >>= (λ process. ok (open_another next_number new_client standard 3 refl refl process)))
      ≡ ok standard)
    × ((create_tcp_socket next_number standard).handle ≡ pos 3)
    × (contains 0 (destroy new_client standard) ≡ false)
destroy_closes_another_example = destroy_closes_another next_number new_client standard 3 refl refl

-- Five bytes in two pieces, into a buffer of seven.
recv_fills_example :
    ((recv (pos 5) (moved 2 ∷ moved 3 ∷ [])).returned ≡ some (pos 5))
    × (fill memory
          (recv (pos 5) (moved 2 ∷ moved 3 ∷ [])).requests
          ((11 ∷ 12 ∷ []) ∷ (13 ∷ 14 ∷ 15 ∷ []) ∷ [])
        ≡ 11 ∷ 12 ∷ 13 ∷ 14 ∷ 15 ∷ 6 ∷ 7 ∷ [])
recv_fills_example =
    recv_fills 5 (omega arith) memory ((11 ∷ 12 ∷ []) ∷ []) (13 ∷ 14 ∷ 15 ∷ []) [] (omega arith)
      refl
