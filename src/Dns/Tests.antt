-- ===== src/Dns/Tests.antt =====
-- A query and an answer of 100 bytes.
use nuke.Base.{ℕ, ◌*◌, ◌/◌, ◌+◌, ◌%◌, ◌≡◌, refl, arith, [], ◌∷◌, none}
use nuke.Sockets.{moved}
use nuke.Dns.{resolve}
use nuke.Dns.Query.{IsMisread, resolve-IsMisread}

abbrev exchange : ℕ → ℕ
exchange w = w % 256 * 256 + w / 256

-- An address is its number.
abbrev same : ℕ → ℕ
same n = n

resolve-IsMisread_example :
    IsMisread 3 (resolve exchange same 3 7 9 (moved 512 ∷ []) (moved 100 ∷ [])).message
    × ((resolve exchange same 3 7 9 (moved 512 ∷ []) (moved 100 ∷ [])).received.returned ≡ none)
resolve-IsMisread_example =
    resolve-IsMisread exchange same 3 7 9 (moved 512 ∷ []) 100 refl (omega arith) (omega arith)
