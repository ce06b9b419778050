-- ===== src/Stopwatch/Elapsing.antt =====
-- A stopwatch measures the time during which it runs.
use nuke.Base.{
  ℕ, ◌+◌, ◌-◌, ◌^◌, ◌≤◌, ◌<◌, ◌≡◌, refl, arith, Bool, true, false, List, [], ◌∷◌, ap, ◌∙◌,
}
use nuke.Base.Int.{pos, ◌+ℤ◌, ◌-ℤ◌, ltb_ℤ}
use nuke.Base.Word.{i64}
use nuke.Stopwatch.{
  Stopwatch, start, stop, reset, restart, new_stopwatch, get_raw_elapsed_ticks, Call, starts, stops,
  resets, restarts, perform, perform_all,
}

abbrev pub time_of : Call → ℕ
time_of (starts t) = t
time_of (stops t) = t
time_of (resets t) = t
time_of (restarts t) = t

-- The readings of the clock do not fall, from `last` on until `now`.
abbrev pub InOrder : (last : ℕ) → List Call → (now : ℕ) → Type 0
InOrder last [] now = last ≤ now
InOrder last (call ∷ calls) now = (last ≤ time_of call) × InOrder (time_of call) calls now

-- The time between two calls counts if the watch runs.
abbrev pub counted : Bool → (total last time : ℕ) → ℕ
counted true total last time = total + (time - last)
counted false total last time = total

-- The time that a watch should show, counted from call to call: `total` at the time `last`.
abbrev pub measured : (running : Bool) (total last : ℕ) → List Call → (now : ℕ) → ℕ
measured running total last [] now = counted running total last now
measured running total last (starts t ∷ calls) now =
    measured true (counted running total last t) t calls now
measured running total last (stops t ∷ calls) now =
    measured false (counted running total last t) t calls now
measured running total last (resets t ∷ calls) now = measured false 0 t calls now
measured running total last (restarts t ∷ calls) now = measured true 0 t calls now

abbrev watch : ℕ → ℕ → Bool → Stopwatch
watch e s running = record { elapsed = pos e; start_time_stamp = pos s; is_running = running }

-- What a watch shows after some calls, when it stands and when it runs.
abbrev Shows : List Call → (now last : ℕ) → Type 0
Shows calls now last =
    ((total s : ℕ)
      → total ≤ last
      → get_raw_elapsed_ticks (perform_all (watch total s false) calls) (pos now)
        ≡ pos (measured false total last calls now))
    × ((e s : ℕ)
        → s ≤ last
        → e ≤ s
        → get_raw_elapsed_ticks (perform_all (watch e s true) calls) (pos now)
          ≡ pos (measured true (e + (last - s)) last calls now))

elapsed_sum :
    (e s t : ℕ)
    → s ≤ t
    → e ≤ s
    → t < 2 ^ 63
    → i64 (pos e +ℤ i64 (pos t -ℤ pos s)) ≡ pos (e + (t - s))
unfolding ◌+ℤ◌ ◌-ℤ◌
elapsed_sum e s t hs he ht = ground arith

not_negative : (n : ℕ) → ltb_ℤ (pos n) (pos 0) ≡ false
not_negative n = ground arith

stop_lem :
    (e s t : ℕ)
    → s ≤ t
    → e ≤ s
    → t < 2 ^ 63
    → stop (watch e s true) (pos t) ≡ watch (e + (t - s)) s false
unfolding stop
stop_lem e s t hs he ht = rw (elapsed_sum e s t hs he ht, not_negative (e + (t - s))) refl

InOrder-le : (calls : List Call) (last now : ℕ) → InOrder last calls now → last ≤ now
InOrder-le [] last now h = h
InOrder-le (call ∷ calls) last now (le, h) = omega (arith, InOrder-le calls (time_of call) now h)

-- The sum measured so far, written another way.
measured_at :
    (running : Bool) (t : ℕ) (calls : List Call) (now : ℕ) {a b : ℕ}
    → a ≡ b
    → pos (measured running a t calls now) ≡ pos (measured running b t calls now)
measured_at running t calls now e = ap (λ (x : ℕ). pos (measured running x t calls now)) e

stop_stands :
    (total s t : ℕ) (calls : List Call) (now : ℕ)
    → get_raw_elapsed_ticks (perform_all (stop (watch total s false) (pos t)) calls) (pos now)
      ≡ get_raw_elapsed_ticks (perform_all (watch total s false) calls) (pos now)
unfolding stop
stop_stands total s t calls now = refl

shows :
    (calls : List Call) (now last : ℕ)
    → InOrder last calls now
    → now < 2 ^ 63
    → Shows calls now last
unfolding perform_all perform get_raw_elapsed_ticks start reset restart
shows [] now last h small = (
  λ total s ht. refl,
  λ e s hs he. elapsed_sum e s now (omega arith) he small ∙ ap pos (omega arith),
)
shows (starts t ∷ calls) now last (ht, h) small =
    let rest = shows calls now t h small in
    (
      λ total s le.
          rest.1 total t (omega arith) (omega arith) ∙ measured_at true t calls now (omega arith),
      λ e s hs he. rest.1 e s (omega arith) he ∙ measured_at true t calls now (omega arith),
    )
shows (stops t ∷ calls) now last (ht, h) small =
    let rest = shows calls now t h small in
    let bound = InOrder-le calls t now h in
    (
      λ total s le. stop_stands total s t calls now ∙ rest.0 total s (omega arith),
      λ e s hs he.
          ap (λ (w : Stopwatch). get_raw_elapsed_ticks (perform_all w calls) (pos now))
            (stop_lem e s t (omega arith) he (omega arith))
          ∙ rest.0 (e + (t - s)) s (omega arith)
          ∙ measured_at false t calls now (omega arith),
    )
shows (resets t ∷ calls) now last (ht, h) small =
    let rest = shows calls now t h small in
    (λ total s le. rest.0 0 0 (omega arith), λ e s hs he. rest.0 0 0 (omega arith))
shows (restarts t ∷ calls) now last (ht, h) small =
    let rest = shows calls now t h small in
    let again =
      rest.1 0 t (omega arith) (omega arith) ∙ measured_at true t calls now (omega arith) in
    (λ total s le. again, λ e s hs he. again)

-- If the readings of the clock do not fall and stay below 2 ^ 63, a new stopwatch shows, after any
-- calls of `Start`, `Stop`, `Reset` and `Restart`, the time between those calls during which it ran
-- since it was last reset, and no sum overflows.
pub get_raw_elapsed_ticks_lem :
    (calls : List Call) (now : ℕ)
    → InOrder 0 calls now
    → now < 2 ^ 63
    → get_raw_elapsed_ticks (perform_all new_stopwatch calls) (pos now)
      ≡ pos (measured false 0 0 calls now)
unfolding new_stopwatch reset
get_raw_elapsed_ticks_lem calls now h small = (shows calls now 0 h small).0 0 0 (omega arith)
