-- ===== src/Sockets/Stream.antt =====
-- Which bytes the loop of Send puts on the wire, when a call transmits from the place that it is given.
use nuke.Base.{
  ℕ, ◌+◌, ◌<◌, ◌^◌, ◌≡◌, refl, sym, ap, ◌∙◌, arith, List, [], ◌∷◌, ◌++◌, map, some, take, drop,
  append_nil, take-add, drop-add, zero_add, add_assoc,
}
use nuke.Base.Int.{pos, pos_part}
use nuke.Sockets.{Reply, moved, Request, Run, send, recv}
use nuke.Sockets.Progress.{
  sum, requests_from, both_complete, both_run_on, Misses, AllOverrun, later_overrun,
}

-- `memory` is what lies in memory from the buffer's first byte on.
abbrev pub on_wire : (memory : List ℕ) → List Request → (counts : List ℕ) → List ℕ
on_wire memory [] counts = []
on_wire memory (r ∷ rs) [] = []
on_wire memory (r ∷ rs) (count ∷ counts) =
    take count (drop (pos_part r.offset) memory) ++ on_wire memory rs counts

on_wire_from :
    (memory : List ℕ) (length done : ℕ) (counts : List ℕ) (last : ℕ)
    → on_wire memory (requests_from length done counts) (counts ++ last ∷ [])
      ≡ take (sum counts + last) (drop done memory)
on_wire_from memory length done [] last =
    append_nil (take last (drop done memory)) ∙ rw (zero_add last) refl
on_wire_from memory length done (count ∷ counts) last =
    ap (λ (t : List ℕ). take count (drop done memory) ++ t)
      (on_wire_from memory length (done + count) counts last ∙ rw (drop-add done count memory) refl)
    ∙ sym (take-add count (sum counts + last) (drop done memory))
    ∙ rw (add_assoc count (sum counts) last) refl

abbrev pub all_but_first : List Request → List Request
all_but_first [] = []
all_but_first (r ∷ rs) = rs

module _ (length : ℕ) (l : length < 2 ^ 31) where
  abbrev pub IsDelivered : (memory : List ℕ) (sent received : Run) (counts : List ℕ) → Type 0
  IsDelivered memory sent received counts =
      (sent.returned ≡ some (pos length))
      × (received.returned ≡ some (pos length))
      × (on_wire memory sent.requests counts ≡ take length memory)

  -- Let the system move some bytes by each call, at least one by the last, `length` bytes in all,
  -- fewer than 2^31. Then `Send` and `Recv` return with `length`, and what `Send` puts on the wire
  -- is the `length` bytes of the buffer, each once and in order.
  pub send_delivers :
      (memory : List ℕ) (counts : List ℕ) (last : ℕ) (more : List Reply)
      → 0 < last
      → sum counts + last ≡ length
      → IsDelivered memory
          (send (pos length) (map moved counts ++ moved last ∷ more))
          (recv (pos length) (map moved counts ++ moved last ∷ more))
          (counts ++ last ∷ [])
  send_delivers memory counts last more positive hits =
      let complete = both_complete length l counts last more positive hits in
      rw (complete.0)
        (rw (complete.1) (refl, refl, on_wire_from memory length 0 counts last ∙ rw (hits) refl))

  -- Once a call of `Send` has moved some bytes, fewer than 2^31 in all and never exactly `length`,
  -- every further call is given `length` bytes from the place reached, which ends behind the
  -- buffer.
  pub send_overruns :
      (count : ℕ) (counts : List ℕ)
      → 0 < count
      → sum (count ∷ counts) < 2 ^ 31
      → Misses length 0 (count ∷ counts)
      → AllOverrun length l
          (all_but_first (send (pos length) (map moved (count ∷ counts))).requests)
  send_overruns count counts positive small misses =
      rw ((both_run_on length l (count ∷ counts) small misses).0)
        (later_overrun length l (0 + count) counts (omega (arith, positive)))
