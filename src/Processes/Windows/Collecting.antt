-- ===== src/Processes/Windows/Collecting.antt =====
-- The map of processes: in order, and with the last entry for each identifier.
use mathlib.Core.Path.{subst}
use nuke.Base.{
  ◌≡◌, refl, ap, Bool, true, false, Bool-cases, inl, inr, List, [], ◌∷◌, Option, none, some,
  if◌then◌else◌, arith,
}
use nuke.Base.Int.{ℤ, ltb_ℤ, eqb_ℤ}
use nuke.Processes.Windows.Walk.{ProcessInfo, assign}

abbrev pub find_id : ℤ → List ProcessInfo → Option ProcessInfo
find_id id [] = none
find_id id (x ∷ xs) = let rest = find_id id xs in if eqb_ℤ id x.process_id then some x else rest

-- The identifier is smaller than each one in the list.
abbrev IsBelow : ℤ → List ProcessInfo → Type 0
IsBelow id [] = Unit
IsBelow id (x ∷ xs) = (ltb_ℤ id x.process_id ≡ true) × IsBelow id xs

-- The identifiers grow, so none stands twice.
abbrev pub IsSorted : List ProcessInfo → Type 0
IsSorted [] = Unit
IsSorted (x ∷ xs) = IsBelow x.process_id xs × IsSorted xs

lt_trans : (a b c : ℤ) → ltb_ℤ a b ≡ true → ltb_ℤ b c ≡ true → ltb_ℤ a c ≡ true
lt_trans a b c h k = ground arith

IsBelow-trans : (a b : ℤ) (xs : List ProcessInfo) → ltb_ℤ a b ≡ true → IsBelow b xs → IsBelow a xs
IsBelow-trans a b [] h below = tt
IsBelow-trans a b (x ∷ xs) h (first, below) =
    (lt_trans a b x.process_id h first, IsBelow-trans a b xs h below)

IsBelow-assign :
    (a : ℤ) (info : ProcessInfo) (xs : List ProcessInfo)
    → ltb_ℤ a info.process_id ≡ true
    → IsBelow a xs
    → IsBelow a (assign info.process_id info xs)
unfolding assign
IsBelow-assign a info [] h below = (h, tt)
IsBelow-assign a info (x ∷ xs) h (first, below) =
    elim (Bool-cases (ltb_ℤ info.process_id x.process_id)) [
      | inl smaller ↦ rw smaller (h, (first, below))
      | inr not_smaller ↦ rw not_smaller (elim (Bool-cases (ltb_ℤ x.process_id info.process_id)) [
        | inl larger ↦ rw larger (first, IsBelow-assign a info xs h below)
        | inr same ↦ rw same (h, below)
      ])
    ]

same_id : (a b : ℤ) → ltb_ℤ a b ≡ false → ltb_ℤ b a ≡ false → a ≡ b
same_id a b h k = ground arith

pub assign-IsSorted :
    (info : ProcessInfo) (xs : List ProcessInfo)
    → IsSorted xs
    → IsSorted (assign info.process_id info xs)
unfolding assign
assign-IsSorted info [] sorted = (tt, tt)
assign-IsSorted info (x ∷ xs) (below, sorted) =
    elim (Bool-cases (ltb_ℤ info.process_id x.process_id)) [
      | inl smaller ↦
          rw smaller (
            (smaller, IsBelow-trans info.process_id x.process_id xs smaller below),
            (below, sorted),
          )
      | inr not_smaller ↦ rw not_smaller (elim (Bool-cases (ltb_ℤ x.process_id info.process_id)) [
        | inl larger ↦
            rw larger
              (IsBelow-assign x.process_id info xs larger below, assign-IsSorted info xs sorted)
        | inr same ↦ rw same (
          subst (λ (t : ℤ). IsBelow t xs) (same_id x.process_id info.process_id same not_smaller)
              below,
          sorted,
        )
      ])
    ]

not_both : (a b c : ℤ) → eqb_ℤ c a ≡ true → ltb_ℤ a b ≡ true → eqb_ℤ c b ≡ false
not_both a b c h k = ground arith

-- Two tests of which one holds at most.
swap_tests {ℓ} :
    {A : Type ℓ} (p q : Bool) (x y z : A)
    → (p ≡ true → q ≡ false)
    → (if p then x else if q then y else z) ≡ (if q then y else if p then x else z)
swap_tests true q x y z exclude = rw (exclude refl) refl
swap_tests false q x y z exclude = refl

absorb_tests {ℓ} :
    {A : Type ℓ} (p q : Bool) (x y z : A)
    → p ≡ q
    → (if p then x else z) ≡ (if p then x else if q then y else z)
absorb_tests true q x y z same = refl
absorb_tests false q x y z same = rw (← same) refl

pub find_id-assign :
    (id : ℤ) (info : ProcessInfo) (xs : List ProcessInfo)
    → find_id id (assign info.process_id info xs)
      ≡ (if eqb_ℤ id info.process_id then some info else find_id id xs)
unfolding assign
find_id-assign id info [] = refl
find_id-assign id info (x ∷ xs) = elim (Bool-cases (ltb_ℤ info.process_id x.process_id)) [
  | inl smaller ↦ rw smaller refl
  | inr not_smaller ↦ rw not_smaller (elim (Bool-cases (ltb_ℤ x.process_id info.process_id)) [
    | inl larger ↦
        rw (larger, find_id-assign id info xs)
          (swap_tests (eqb_ℤ id x.process_id) (eqb_ℤ id info.process_id) (some x) (some info)
            (find_id id xs) (λ at_x. not_both x.process_id info.process_id id at_x larger))
    | inr same ↦ rw same (
        absorb_tests (eqb_ℤ id info.process_id) (eqb_ℤ id x.process_id) (some info) (some x)
          (find_id id xs) (ap (eqb_ℤ id) (same_id info.process_id x.process_id not_smaller same)))
  ])
]
