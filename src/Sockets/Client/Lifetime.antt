-- ===== src/Sockets/Client/Lifetime.antt =====
-- Which descriptors a TcpClient leaves open and which it closes.
use nuke.Base.{
  ℕ, ◌==◌, ◌≡◌, refl, ap, ◌∙◌, arith, Bool, true, false, List, [], ◌∷◌, Option, some, ◌||◌, ==_refl,
}
use nuke.Base.Int.{pos}
use nuke.Base.Result.{Result, ok, ◌>>=◌}
use nuke.Sockets.Client.{
  remove, Process, TcpClient, new_client, connect, create_tcp_socket, api_connect, close_socket,
  close, destroy, invalid_socket_handle,
}

abbrev pub contains : ℕ → List ℕ → Bool
contains n [] = false
contains n (x ∷ xs) = (n == x) || contains n xs

remove-contains : (n : ℕ) (xs : List ℕ) → contains n (remove n xs) ≡ false
remove-contains n [] = refl
remove-contains n (x ∷ xs) = ground (arith, remove-contains n xs)

remove_absent : (n : ℕ) (xs : List ℕ) → contains n xs ≡ false → remove n xs ≡ xs
remove_absent n [] absent = refl
remove_absent n (x ∷ xs) absent = ground (arith, remove_absent n xs, absent)

remove_head : (n : ℕ) (xs : List ℕ) → contains n xs ≡ false → remove n (n ∷ xs) ≡ xs
remove_head n xs absent = rw (==_refl n) (remove_absent n xs absent)

abbrev pub then_destroy : Result Process → Result (List ℕ)
then_destroy result = result >>= (λ process. ok (destroy process.client process.descriptors))

created :
    (lowest_free : List ℕ → Option ℕ) (descriptors : List ℕ) (n : ℕ)
    → lowest_free descriptors ≡ some n
    → create_tcp_socket lowest_free descriptors
      ≡ (record { descriptors = n ∷ descriptors; handle = pos n })
unfolding create_tcp_socket
created lowest_free descriptors n free = rw (free, create_tcp_socket) refl

-- `n` is a new number, and `m` another one.
module _ (lowest_free : List ℕ → Option ℕ) (client : TcpClient) (descriptors : List ℕ) (n : ℕ)
    (free : lowest_free descriptors ≡ some n) (new : contains n descriptors ≡ false) where
  abbrev pub before : Process
  before = record { client = client; descriptors = descriptors }

  abbrev pub held_by_client : Process
  held_by_client = record {
    client = record { socket_handle = pos n };
    descriptors = n ∷ descriptors;
  }

  connected : connect lowest_free true true before ≡ ok held_by_client
  unfolding connect api_connect
  connected = rw (created lowest_free descriptors n free) refl

  pub refused :
      connect lowest_free true false before
      ≡ ok (record { client = record { socket_handle = pos n }; descriptors = descriptors })
  unfolding connect api_connect close_socket
  refused = rw (created lowest_free descriptors n free) (
      ap
        (λ (d : List ℕ). ok (record { client = record { socket_handle = pos n }; descriptors = d }))
        (remove_head n descriptors new))

  released : then_destroy (ok held_by_client) ≡ ok descriptors
  unfolding destroy close close_socket
  released = ap (λ (d : List ℕ). ok d) (remove_head n descriptors new)

  module _ (m : ℕ) (free_again : lowest_free (n ∷ descriptors) ≡ some m)
      (new_again : contains m (n ∷ descriptors) ≡ false) where
    connected_again :
        connect lowest_free true true held_by_client
        ≡ ok (record {
          client = record { socket_handle = pos m };
          descriptors = m ∷ n ∷ descriptors;
        })
    unfolding connect api_connect
    connected_again = rw (created lowest_free (n ∷ descriptors) m free_again) refl

    released_again :
        then_destroy (
          ok (record {
            client = record { socket_handle = pos m };
            descriptors = m ∷ n ∷ descriptors;
          }))
        ≡ ok (n ∷ descriptors)
    unfolding destroy close close_socket
    released_again = ap (λ (d : List ℕ). ok d) (remove_head m (n ∷ descriptors) new_again)

    -- If the system gives out a new descriptor and the connection succeeds, destroying the client
    -- closes what it opened, and no other; if `Connect` succeeds twice, with another new
    -- descriptor, the first one stays open.
    pub destroy_once_leaks :
        (then_destroy (connect lowest_free true true before) ≡ ok descriptors)
        × (then_destroy (connect lowest_free true true before >>= connect lowest_free true true)
            ≡ ok (n ∷ descriptors))
    destroy_once_leaks = (
      ap then_destroy connected ∙ released,
      rw (connected) (ap then_destroy connected_again ∙ released_again),
    )

  -- The program opens another descriptor.
  abbrev pub open_another : Process → Process
  open_another process = record process {
    descriptors = (create_tcp_socket lowest_free process.descriptors).descriptors;
  }

  another_is_same : (create_tcp_socket lowest_free descriptors).handle ≡ pos n
  another_is_same = rw (created lowest_free descriptors n free) refl

  another_closed :
      then_destroy (
        ok (
          open_another
            (record { client = record { socket_handle = pos n }; descriptors = descriptors })))
      ≡ ok descriptors
  unfolding destroy close close_socket
  another_closed =
      rw (created lowest_free descriptors n free)
        (ap (λ (d : List ℕ). ok d) (remove_head n descriptors new))

  -- If `Connect` fails, and the program opens a descriptor before it destroys the client, it gets
  -- the same new number again, and the destructor closes it. The destructor of a client that never
  -- connected closes descriptor 0.
  pub destroy_closes_another :
      (then_destroy
          (connect lowest_free true false before >>= (λ process. ok (open_another process)))
        ≡ ok descriptors)
      × ((create_tcp_socket lowest_free descriptors).handle ≡ pos n)
      × (contains 0 (destroy new_client descriptors) ≡ false)
  unfolding destroy close close_socket new_client invalid_socket_handle
  destroy_closes_another =
      (rw (refused) another_closed, another_is_same, remove-contains 0 descriptors)
