-- ===== src/Sockets/Progress.antt =====
-- When the loops of the socket calls end, and what they ask for.
use nuke.Base.{
  ℕ, ◌+◌, ◌<◌, ◌^◌, ◌==◌, ◌≡◌, ◌≢◌, refl, ap, ◌∙◌, arith, false, List, [], ◌∷◌, ◌++◌, map, none,
  some, ==_refl, add_zero, add_assoc, zero_add,
}
use nuke.Base.Int.{pos, ◌+ℤ◌, ◌-ℤ◌, eqb_ℤ, pos_part, sub_ℕ}
use nuke.Base.Word.{i32, to_u64}
use nuke.Sockets.{Reply, error, moved, Request, Run, request, transfer_from, send, recv}

abbrev pub sum : List ℕ → ℕ
sum [] = 0
sum (n ∷ ns) = n + sum ns

-- A loop at which `done` of `length` bytes were moved.
abbrev pub transfer_at : (length done : ℕ) → List Reply → Run
transfer_at length done replies = transfer_from (pos length) (sub_ℕ length done) (pos done) replies

i32_add : (a b : ℕ) → a + b < 2 ^ 31 → i32 (pos a +ℤ pos b) ≡ pos (a + b)
unfolding ◌+ℤ◌
i32_add a b small = ground (arith, small)

i32_sub :
    (length done count : ℕ)
    → length < 2 ^ 31
    → done + count < 2 ^ 31
    → i32 (sub_ℕ length done -ℤ pos count) ≡ sub_ℕ length (done + count)
unfolding ◌-ℤ◌
i32_sub length done count l small = ground (arith, l, small)

i32_offset :
    (length done : ℕ)
    → length < 2 ^ 31
    → done < 2 ^ 31
    → i32 (pos length -ℤ sub_ℕ length done) ≡ pos done
unfolding ◌-ℤ◌
i32_offset length done l small = ground (arith, l, small)

pub request_lem :
    (length done : ℕ)
    → length < 2 ^ 31
    → done < 2 ^ 31
    → request (pos length) (sub_ℕ length done) ≡ (record { offset = pos done; size = length })
unfolding request
request_lem length done l small =
    let offset_is = i32_offset length done l small in
    let size_is : to_u64 (pos length) ≡ length = omega (arith, l) in
    rw (offset_is) (rw (size_is) refl)

test_done : (length done : ℕ) → eqb_ℤ (sub_ℕ length done) (pos 0) ≡ (done == length)
test_done length done = ground arith

==_false : {a b : ℕ} → a ≢ b → (a == b) ≡ false
==_false differ = ground (arith, differ)

sub_zero : (length : ℕ) → pos length ≡ sub_ℕ length 0
sub_zero length = ground arith

-- The loop goes on after an answer unless it makes the bytes up to the length.
module _ (length done count : ℕ) (l : length < 2 ^ 31) (small : done + count < 2 ^ 31)
    (replies : List Reply) where
  goes_on :
      done + count ≢ length
      → transfer_at length done (moved count ∷ replies) ≡ (record {
        requests =
            (record { offset = pos done; size = length })
            ∷ (transfer_at length (done + count) replies).requests;
        returned = (transfer_at length (done + count) replies).returned;
      })
  unfolding transfer_from
  goes_on misses = rw (i32_sub length done count l small) (
      rw (i32_add done count small) (
        rw (test_done length (done + count))
          (rw (request_lem length done l (omega (arith, small))) (rw (==_false misses) refl))))

  ends :
      done + count ≡ length
      → transfer_at length done (moved count ∷ replies) ≡ (record {
        requests = (record { offset = pos done; size = length }) ∷ [];
        returned = some (pos length);
      })
  unfolding transfer_from
  ends hits = rw (i32_sub length done count l small) (
      rw (i32_add done count small) (
        rw (test_done length (done + count)) (
          rw (request_lem length done l (omega (arith, small)))
            (rw (hits) (rw (==_refl length) refl)))))

-- The answers never make the moved bytes exactly the length.
abbrev pub Misses : (length done : ℕ) → List ℕ → Type 0
Misses length done [] = Unit
Misses length done (count ∷ counts) = (done + count ≢ length) × Misses length (done + count) counts

-- Each call begins behind the bytes that were moved, and asks for the whole length.
abbrev pub requests_from : (length done : ℕ) → List ℕ → List Request
requests_from length done [] = (record { offset = pos done; size = length }) ∷ []
requests_from length done (count ∷ counts) =
    (record { offset = pos done; size = length }) ∷ requests_from length (done + count) counts

-- What a Send and a Recv of `length` bytes do on the same answers.
abbrev pub IsRunOfEach : ℕ → List Reply → Run → Type 0
IsRunOfEach length replies run =
    (send (pos length) replies ≡ run) × (recv (pos length) replies ≡ run)

module _ (length : ℕ) (l : length < 2 ^ 31) where
  pub runs_on_from :
      (done : ℕ) (counts : List ℕ)
      → done + sum counts < 2 ^ 31
      → Misses length done counts
      → transfer_at length done (map moved counts)
        ≡ (record { requests = requests_from length done counts; returned = none })
  unfolding transfer_from
  runs_on_from done [] small misses =
      ap (λ (r : Request). record { requests = r ∷ []; returned = none })
        (request_lem length done l (omega (arith, small)))
  runs_on_from done (count ∷ counts) small (miss, misses) =
      goes_on length done count l (omega (arith, small)) (map moved counts) miss
      ∙ rw (runs_on_from (done + count) counts (omega (arith, small)) misses) refl

  fails_from :
      (done : ℕ) (counts : List ℕ) (more : List Reply)
      → done + sum counts < 2 ^ 31
      → Misses length done counts
      → transfer_at length done (map moved counts ++ error ∷ more) ≡ (record {
        requests = requests_from length done counts;
        returned = some (pos (done + sum counts));
      })
  unfolding transfer_from
  fails_from done [] more small misses =
      rw (request_lem length done l (omega (arith, small))) (rw (add_zero done) refl)
  fails_from done (count ∷ counts) more small (miss, misses) =
      goes_on length done count l (omega (arith, small)) (map moved counts ++ error ∷ more) miss
      ∙ rw (fails_from (done + count) counts more (omega (arith, small)) misses)
          (rw (add_assoc done count (sum counts)) refl)

  completes_from :
      (done : ℕ) (counts : List ℕ) (last : ℕ) (more : List Reply)
      → Misses length done counts
      → (done + sum counts) + last ≡ length
      → transfer_at length done (map moved counts ++ moved last ∷ more)
        ≡ (record { requests = requests_from length done counts; returned = some (pos length) })
  completes_from done [] last more misses hits =
      ends length done last l (omega (arith, hits, l)) more (omega (arith, hits))
  completes_from done (count ∷ counts) last more (miss, misses) hits =
      goes_on length done count l (omega (arith, hits, l)) (map moved counts ++ moved last ∷ more)
        miss
      ∙ rw (completes_from (done + count) counts last more misses (omega (arith, hits))) refl

  from_start : (replies : List Reply) → send (pos length) replies ≡ transfer_at length 0 replies
  unfolding send
  from_start replies = rw (sub_zero length) refl

  received_alike :
      (replies : List Reply) (run : Run)
      → transfer_at length 0 replies ≡ run
      → IsRunOfEach length replies run
  unfolding recv send
  received_alike replies run e = (from_start replies ∙ e, from_start replies ∙ e)

  -- While the bytes moved, fewer than 2^31, never make up exactly `length`, `Send` and `Recv` have
  -- not returned and make one more call, at the place behind the bytes moved: so they do for any
  -- number of calls that move nothing, when the peer has closed its end, and for calls that moved
  -- too much.
  pub both_run_on :
      (counts : List ℕ)
      → sum counts < 2 ^ 31
      → Misses length 0 counts
      → IsRunOfEach length
          (map moved counts)
          (record { requests = requests_from length 0 counts; returned = none })
  both_run_on counts small misses =
      received_alike (map moved counts) _ (runs_on_from 0 counts (omega (arith, small)) misses)

  -- Let calls of fewer than 2^31 bytes in all never make up exactly `length` bytes, and a further
  -- call fail. Then `Send` and `Recv` return the number of bytes moved so far, which does not tell
  -- the failure from a success.
  pub both_fail :
      (counts : List ℕ) (more : List Reply)
      → sum counts < 2 ^ 31
      → Misses length 0 counts
      → IsRunOfEach length
          (map moved counts ++ error ∷ more)
          (record { requests = requests_from length 0 counts; returned = some (pos (sum counts)) })
  both_fail counts more small misses =
      received_alike (map moved counts ++ error ∷ more) _
        (fails_from 0 counts more (omega (arith, small)) misses ∙ rw (zero_add (sum counts)) refl)

  below-Misses :
      (done : ℕ) (counts : List ℕ) → done + sum counts < length → Misses length done counts
  below-Misses done [] below = tt
  below-Misses done (count ∷ counts) below = (
    λ hits. absurd (omega (arith, hits, below)),
    below-Misses (done + count) counts (omega (arith, below)),
  )

  pub both_complete :
      (counts : List ℕ) (last : ℕ) (more : List Reply)
      → 0 < last
      → sum counts + last ≡ length
      → IsRunOfEach length
          (map moved counts ++ moved last ∷ more)
          (record { requests = requests_from length 0 counts; returned = some (pos length) })
  both_complete counts last more positive hits =
      received_alike (map moved counts ++ moved last ∷ more) _ (
        completes_from 0 counts last more (below-Misses 0 counts (omega (arith, positive, hits)))
          (omega (arith, hits)))

  -- A loop that has moved something asks for bytes behind the end of the buffer.
  abbrev pub Overruns : Request → Type 0
  Overruns r = length < pos_part r.offset + r.size

  abbrev pub AllOverrun : List Request → Type 0
  AllOverrun [] = Unit
  AllOverrun (r ∷ rs) = Overruns r × AllOverrun rs

  pub later_overrun :
      (done : ℕ) (counts : List ℕ) → 0 < done → AllOverrun (requests_from length done counts)
  later_overrun done [] positive = (omega (arith, positive), tt)
  later_overrun done (count ∷ counts) positive =
      (omega (arith, positive), later_overrun (done + count) counts (omega (arith, positive)))
