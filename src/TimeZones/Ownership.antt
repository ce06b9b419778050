-- ===== src/TimeZones/Ownership.antt =====
-- The copies that HasDaylightSaving makes delete the objects of the rule.
use nuke.Base.{ℕ, ◌≡◌, refl, arith, Bool, true, false, List, [], ◌∷◌, inl, inr, ◌⊎◌, Bool-cases}
use nuke.Base.Result.{Result, ok, throws, undefined, ◌>>=◌}
use nuke.DateTime.Value
use nuke.DateTime.Value.{min_value, from_data}
use nuke.TimeSpan.{not_equals, zero_span}
use nuke.TimeZones.Rule.{Heap, is_live, without, read, delete, AdjustmentRule, has_daylight_saving}

without-dead : (p : ℕ) (l : List ℕ) → is_live p (without p l) ≡ false
without-dead p [] = refl
without-dead p (q ∷ qs) = ground (arith, without-dead p qs)

-- A run that leaves the object at `p` deleted, or was undefined.
pub data Spoils (p : ℕ) : Result (record { heap : Heap; value : Bool }) → Type 0 where
  broke : Spoils p (throws undefined)
  left :
      (heap : Heap) (value : Bool)
      → is_live p heap.live ≡ false
      → Spoils p (ok (record { heap = heap; value = value }))

read_dead : (heap : Heap) (p : ℕ) → is_live p heap.live ≡ false → read heap p ≡ throws undefined
unfolding read
read_dead heap p dead = rw (dead) refl

read-cases :
    (heap : Heap) (p : ℕ) → (read heap p ≡ throws undefined) ⊎ (read heap p ≡ ok (heap.object p))
unfolding read
read-cases heap p = elim (Bool-cases (is_live p heap.live)) [
  | inl e ↦ inr (rw (e) refl)
  | inr e ↦ inl (rw (e) refl)
]

delete-cases :
    (heap : Heap) (p : ℕ)
    → (delete heap p ≡ throws undefined)
      ⊎ (delete heap p ≡ ok (record heap { live = without p heap.live }))
unfolding delete
delete-cases heap p = elim (Bool-cases (is_live p heap.live)) [
  | inl e ↦ inr (rw (e) refl)
  | inr e ↦ inl (rw (e) refl)
]

module _ (rule : AdjustmentRule) (same : not_equals rule.daylight_delta zero_span ≡ false) where
  abbrev start_address : ℕ
  start_address = rule.daylight_transition_start

  abbrev end_address : ℕ
  end_address = rule.daylight_transition_end

  dead_breaks :
      (heap : Heap)
      → is_live start_address heap.live ≡ false
      → has_daylight_saving rule heap ≡ throws undefined
  unfolding has_daylight_saving
  dead_breaks heap dead = rw (same) (rw (read_dead heap start_address dead) refl)

  deleted-Spoils :
      (heap : Heap) (value : Bool)
      → Spoils start_address
          (delete heap start_address >>= (λ h. ok (record { heap = h; value = value })))
  unfolding delete
  deleted-Spoils heap value = elim (Bool-cases (is_live start_address heap.live)) [
    | inl e ↦ rw (e) (left _ value (without-dead start_address heap.live))
    | inr e ↦ rw (e) broke
  ]

  both_deleted-Spoils :
      (heap : Heap) (value : Bool)
      → Spoils start_address (
          delete heap end_address >>= (λ after_end.
            delete after_end start_address >>= (λ h. ok (record { heap = h; value = value }))))
  both_deleted-Spoils heap value = elim (delete-cases heap end_address) [
    | inl e ↦ rw (e) broke
    | inr e ↦ rw (e) (deleted-Spoils _ value)
  ]

  live-Spoils :
      (heap : Heap)
      → read heap start_address ≡ ok (heap.object start_address)
      → Spoils start_address (has_daylight_saving rule heap)
  unfolding has_daylight_saving
  live-Spoils heap e = rw (same) (
      rw (e)
        (elim (Bool-cases (Value.not_equals (heap.object start_address).time_of_day min_value)) [
          | inl n ↦ rw (n) (deleted-Spoils heap true)
          | inr n ↦ rw (n) (elim (read-cases heap end_address) [
            | inl r ↦ rw (r) broke
            | inr r ↦ rw (r) (both_deleted-Spoils heap _)
          ])
        ]))

  has_daylight_saving-Spoils : (heap : Heap) → Spoils start_address (has_daylight_saving rule heap)
  unfolding has_daylight_saving
  has_daylight_saving-Spoils heap = elim (read-cases heap start_address) [
    | inl e ↦ rw (same) (rw (e) broke)
    | inr e ↦ live-Spoils heap e
  ]

  of_Spoils :
      (r : Result (record { heap : Heap; value : Bool }))
      → Spoils start_address r
      → (r >>= (λ first. has_daylight_saving rule first.heap)) ≡ throws undefined
  of_Spoils r broke = refl
  of_Spoils r (left heap value dead) = dead_breaks heap dead

  -- For a rule whose daylight delta is zero, a second call of `HasDaylightSaving` is undefined,
  -- whatever objects are allocated.
  pub has_daylight_saving_twice :
      (heap : Heap)
      → (has_daylight_saving rule heap >>= (λ first. has_daylight_saving rule first.heap))
        ≡ throws undefined
  has_daylight_saving_twice heap =
      of_Spoils (has_daylight_saving rule heap) (has_daylight_saving-Spoils heap)
