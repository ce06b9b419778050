-- ===== src/Sockets/Filling.antt =====
-- What the loop of Recv leaves in the buffer, when a call stores from the place that it is given.
use nuke.Base.{
  ℕ, ◌+◌, ◌<◌, ◌^◌, ◌≡◌, refl, sym, ap, ◌∙◌, arith, List, [], ◌∷◌, ◌++◌, map, some, take, drop,
  length, length-append, append_nil, append_assoc, drop-add, zero_add, add_assoc,
}
use nuke.Base.Int.{pos, pos_part}
use nuke.Base.Text.{take-length, drop-length}
use nuke.Sockets.{Reply, moved, Request, recv}
use nuke.Sockets.Progress.{sum, requests_from, both_complete}

-- A call stores its bytes.
abbrev pub store : (buffer : List ℕ) (offset : ℕ) (bytes : List ℕ) → List ℕ
store buffer offset bytes = take offset buffer ++ (bytes ++ drop (offset + length bytes) buffer)

abbrev pub fill : (buffer : List ℕ) → List Request → (chunks : List (List ℕ)) → List ℕ
fill buffer [] chunks = buffer
fill buffer (r ∷ rs) [] = buffer
fill buffer (r ∷ rs) (chunk ∷ chunks) = fill (store buffer (pos_part r.offset) chunk) rs chunks

abbrev pub lengths : List (List ℕ) → List ℕ
lengths [] = []
lengths (chunk ∷ chunks) = length chunk ∷ lengths chunks

abbrev pub concat : List (List ℕ) → List ℕ
concat [] = []
concat (chunk ∷ chunks) = chunk ++ concat chunks

store-behind :
    (front rest bytes : List ℕ)
    → store (front ++ rest) (length front) bytes ≡ (front ++ bytes) ++ drop (length bytes) rest
store-behind front rest bytes = rw (take-length front rest) (
    rw (drop-add (length front) (length bytes) (front ++ rest))
      (rw (drop-length front rest) (sym (append_assoc front bytes (drop (length bytes) rest)))))

fill_from :
    (size : ℕ) (front rest : List ℕ) (done : ℕ) (chunks : List (List ℕ)) (last : List ℕ)
    → length front ≡ done
    → fill (front ++ rest) (requests_from size done (lengths chunks)) (chunks ++ last ∷ [])
      ≡ front ++ (concat (chunks ++ last ∷ []) ++ drop (sum (lengths chunks) + length last) rest)
fill_from size front rest done [] last reached =
    ap (λ (n : ℕ). store (front ++ rest) n last) (sym reached)
    ∙ store-behind front rest last
    ∙ append_assoc front last (drop (length last) rest)
    ∙ ap (λ (t : List ℕ). front ++ (t ++ drop (length last) rest)) (sym (append_nil last))
    ∙ ap (λ (n : ℕ). front ++ ((last ++ []) ++ drop n rest)) (sym (zero_add (length last)))
fill_from size front rest done (chunk ∷ chunks) last reached =
    let all = concat (chunks ++ last ∷ []) in
    let behind = sum (lengths chunks) + length last in
    ap
      (λ (n : ℕ).
        fill (store (front ++ rest) n chunk)
          (requests_from size (done + length chunk) (lengths chunks)) (chunks ++ last ∷ []))
      (sym reached)
    ∙ ap
        (λ (t : List ℕ).
          fill t (requests_from size (done + length chunk) (lengths chunks)) (chunks ++ last ∷ []))
        (store-behind front rest chunk)
    ∙ fill_from size (front ++ chunk) (drop (length chunk) rest) (done + length chunk) chunks last
        (omega (arith, reached, length-append front chunk))
    ∙ append_assoc front chunk (all ++ drop behind (drop (length chunk) rest))
    ∙ ap (λ (t : List ℕ). front ++ t)
        (sym (append_assoc chunk all (drop behind (drop (length chunk) rest))))
    ∙ ap (λ (t : List ℕ). front ++ ((chunk ++ all) ++ t))
        (sym (drop-add (length chunk) behind rest))
    ∙ ap (λ (n : ℕ). front ++ ((chunk ++ all) ++ drop n rest))
        (sym (add_assoc (length chunk) (sum (lengths chunks)) (length last)))

-- Let the peer's bytes come in pieces, the last one not empty, of `size` bytes in all, fewer than
-- 2^31. Then `Recv` returns `size`, and the buffer holds the bytes in order, followed by what it
-- held behind them.
pub recv_fills :
    (size : ℕ) (small : size < 2 ^ 31) (buffer : List ℕ) (chunks : List (List ℕ)) (last : List ℕ)
    (more : List Reply)
    → 0 < length last
    → sum (lengths chunks) + length last ≡ size
    → ((recv (pos size) (map moved (lengths chunks) ++ moved (length last) ∷ more)).returned
        ≡ some (pos size))
      × (fill buffer
            (recv (pos size) (map moved (lengths chunks) ++ moved (length last) ∷ more)).requests
            (chunks ++ last ∷ [])
          ≡ concat (chunks ++ last ∷ []) ++ drop size buffer)
recv_fills size small buffer chunks last more positive hits =
    let complete = both_complete size small (lengths chunks) (length last) more positive hits in
    rw (complete.1) (
      refl,
      fill_from size [] buffer 0 chunks last refl
          ∙ ap (λ (n : ℕ). concat (chunks ++ last ∷ []) ++ drop n buffer) hits,
    )
