-- ===== src/Sockets/Client.antt =====
-- System/Net/Sockets/TcpClient.cpp and Connect, CreateTcpSocket and CloseSocket of
-- CrossPlatform/SocketApi.cpp, with the process's table of open descriptors.
pub mod Lifetime
use nuke.Base.{ℕ, ◌==◌, Bool, true, false, List, [], ◌∷◌, Option, none, some, if◌then◌else◌}
use nuke.Base.Int.{ℤ, pos, negsuc}
use nuke.Base.Result.{Result, ok, throws, undefined, ◌>>=◌}
use nuke.Sockets.{Reply, Run, send, recv}

abbrev pub remove : ℕ → List ℕ → List ℕ
remove n [] = []
remove n (x ∷ xs) = let rest = remove n xs in if n == x then rest else x ∷ rest

-- On Linux a handle is an int, and `InvalidSocketHandle` is 0.
unfoldable pub invalid_socket_handle : ℤ
invalid_socket_handle = pos 0

-- CloseSocket. `close` refuses a number that is not open.
unfoldable pub close_socket : ℤ → (descriptors : List ℕ) → List ℕ
close_socket (pos n) descriptors = remove n descriptors
close_socket (negsuc n) descriptors = descriptors

pub data InvokeResult : Type 0 where
  success last_error : InvokeResult

-- SocketApi::Connect. `resolves` and `connects` tell whether getaddrinfo and connect succeed: if
-- getaddrinfo does not, the null pointer `result` is read.
unfoldable pub api_connect :
    (resolves connects : Bool) (handle : ℤ) (descriptors : List ℕ)
    → Result (record { descriptors : List ℕ; result : InvokeResult })
api_connect false connects handle descriptors = throws undefined
api_connect true true handle descriptors =
    ok (record { descriptors = descriptors; result = success })
api_connect true false handle descriptors =
    ok (record { descriptors = close_socket handle descriptors; result = last_error })

pub record TcpClient : Type 0 where
  pub socket_handle : ℤ

-- A client and the descriptors that are open in its process.
pub record Process : Type 0 where
  pub client : TcpClient
  pub descriptors : List ℕ

unfoldable pub new_client : TcpClient
new_client = record { socket_handle = invalid_socket_handle }

-- `lowest_free` is the system's choice of a new descriptor's number; without one `socket` returns -1.
module _ (lowest_free : List ℕ → Option ℕ) where
  unfoldable pub create_tcp_socket :
      (descriptors : List ℕ) → record { descriptors : List ℕ; handle : ℤ }
  create_tcp_socket descriptors = elim (lowest_free descriptors) [
    | none ↦ (record { descriptors = descriptors; handle = negsuc 0 })
    | some n ↦ (record { descriptors = n ∷ descriptors; handle = pos n })
  ]

  -- Connect. It drops what SocketApi::Connect returns.
  unfoldable pub connect : (resolves connects : Bool) → Process → Result Process
  connect resolves connects process =
      let created = create_tcp_socket process.descriptors in
      api_connect resolves connects created.handle created.descriptors >>= (λ answer. ok (record {
        client = record { socket_handle = created.handle };
        descriptors = answer.descriptors;
      }))

unfoldable pub close : TcpClient → (descriptors : List ℕ) → List ℕ
close client descriptors = close_socket client.socket_handle descriptors

-- ~TcpClient
unfoldable pub destroy : TcpClient → (descriptors : List ℕ) → List ℕ
destroy client descriptors = close client descriptors

-- Write drops the number that Send returns. The buffer begins at `buffer + offset`.
unfoldable pub write : (size : ℤ) → List Reply → Run
write size replies = send size replies

unfoldable pub read : (size : ℤ) → List Reply → Run
read size replies = recv size replies

unfoldable pub available : ℤ
available = pos 0
