-- ===== src/Net/Scope.antt =====
-- The scope id and the equality of System/Net/IPAddress.cpp.
use nuke.Base.{
  ℕ, ◌≡◌, refl, arith, Bool, true, false, List, [], ◌∷◌, ◌⊎◌, inl, inr, ◌==◌, ◌&&◌, ◌↔◌, Bool-cases,
  ==_iff, ==_refl,
}
use nuke.Base.Word.{to_u32}
use nuke.Base.Int.{ℤ, pos, ◌≤ℤ◌, eqb_ℤ}
use nuke.Base.Result.{Result, ok, throws, invalid_argument, out_of_range}
use nuke.Net.Address.{
  IpAddress, is_ipv6, is_ipv4, set_scope_id, scope_id, set_private_scope_id, get_address_bytes,
  equals, equal_lists,
}

-- The numbers that a scope id or an IPv4 address may have.
abbrev pub IsWord : ℤ → Type 0
IsWord value = (pos 0 ≤ℤ value) × (value ≤ℤ pos 4294967295)

-- What `SetScopeId` does to `a`.
pub data ScopeSet (a : IpAddress) (value : ℤ) : Result IpAddress → Type 0 where
  stored :
      (b : IpAddress)
      → scope_id b ≡ ok value
      → get_address_bytes b ≡ get_address_bytes a
      → ScopeSet a value (ok b)
  has_no_scope : is_ipv4 a ≡ true → ScopeSet a value (throws invalid_argument)
  no_word : ¬ IsWord value → ScopeSet a value (throws out_of_range)

IsWord-or : (z : ℤ) → IsWord z ⊎ (¬ IsWord z)
IsWord-or z = ground arith

set_scope_id_word :
    (a : IpAddress) (value : ℤ)
    → is_ipv4 a ≡ false
    → IsWord value
    → set_scope_id a value ≡ ok (set_private_scope_id a (to_u32 value))
unfolding set_scope_id
set_scope_id_word a value six word = rw six (ground arith)

set_scope_id_stores :
    (a : IpAddress) (value : ℤ)
    → is_ipv4 a ≡ false
    → IsWord value
    → ScopeSet a value (set_scope_id a value)
unfolding scope_id set_private_scope_id get_address_bytes is_ipv4 is_ipv6
set_scope_id_stores a value six word =
    rw (set_scope_id_word a value six word) (stored _ (rw six (ground arith)) (rw six refl))

set_scope_id_refuses :
    (a : IpAddress) (value : ℤ)
    → is_ipv4 a ≡ false
    → ¬ IsWord value
    → set_scope_id a value ≡ throws out_of_range
unfolding set_scope_id
set_scope_id_refuses a value six bad = rw six (ground arith)

set_scope_id_ipv4 :
    (a : IpAddress) (value : ℤ) → is_ipv4 a ≡ true → set_scope_id a value ≡ throws invalid_argument
unfolding set_scope_id
set_scope_id_ipv4 a value four = rw four refl

-- `SetScopeId` stores an unsigned 32-bit value, which `ScopeId` gives back while the bytes of the
-- address stay; it throws `invalid_argument` for IPv4 and `out_of_range` for other values.
pub set_scope_id-ScopeSet : (a : IpAddress) (value : ℤ) → ScopeSet a value (set_scope_id a value)
set_scope_id-ScopeSet a value = elim (Bool-cases (is_ipv4 a)) [
  | inl four ↦ rw (set_scope_id_ipv4 a value four) (has_no_scope four)
  | inr six ↦ elim (IsWord-or value) [
    | inl word ↦ set_scope_id_stores a value six word
    | inr bad ↦ rw (set_scope_id_refuses a value six bad) (no_word bad)
  ]
]

and_parts : (p q : Bool) → (p && q) ≡ true → (p ≡ true) × (q ≡ true)
and_parts true q e = (refl, e)
and_parts false q e = cc

equal_lists_sound : (xs ys : List ℕ) → equal_lists xs ys ≡ true → xs ≡ ys
unfolding equal_lists
equal_lists_sound [] [] e = refl
equal_lists_sound [] (y ∷ ys) e = cc
equal_lists_sound (x ∷ xs) [] e = cc
equal_lists_sound (x ∷ xs) (y ∷ ys) e =
    let (head, tail) = and_parts (x == y) (equal_lists xs ys) e in
    let same_head = (==_iff x y).0 head in let same_tail = equal_lists_sound xs ys tail in cc

equal_lists_refl : (xs : List ℕ) → equal_lists xs xs ≡ true
unfolding equal_lists
equal_lists_refl [] = refl
equal_lists_refl (x ∷ xs) = rw (==_refl x) (equal_lists_refl xs)

eqb_ℤ_sound : (z w : ℤ) → eqb_ℤ z w ≡ true → z ≡ w
eqb_ℤ_sound z w e = ground arith

equals_sound : (a b : IpAddress) → equals a b ≡ true → a ≡ b
unfolding equals
equals_sound a b e =
    let (e1, same_numbers) = and_parts _ (equal_lists a.numbers b.numbers) e in
    let (e2, same_text) = and_parts _ (equal_lists a.to_string b.to_string) e1 in
    let (same_value, same_hash) = and_parts _ (eqb_ℤ a.hash_code b.hash_code) e2 in
    λ i. record {
      address_or_scope_id = (==_iff a.address_or_scope_id b.address_or_scope_id).0 same_value i;
      hash_code = eqb_ℤ_sound a.hash_code b.hash_code same_hash i;
      to_string = equal_lists_sound a.to_string b.to_string same_text i;
      numbers = equal_lists_sound a.numbers b.numbers same_numbers i;
    }

equals_refl : (a : IpAddress) → equals a a ≡ true
unfolding equals
equals_refl a =
    rw (==_refl a.address_or_scope_id, equal_lists_refl a.to_string, equal_lists_refl a.numbers)
      (ground arith)

-- `operator==` of two addresses holds exactly if they are equal in all members.
pub equals_iff : (a b : IpAddress) → (equals a b ≡ true) ↔ (a ≡ b)
equals_iff a b = (equals_sound a b, λ e. rw e (equals_refl b))
