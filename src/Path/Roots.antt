-- ===== src/Path/Roots.antt =====
-- The root of a Windows path lies within the path.
use nuke.Base.{
  ℕ, zero, suc, ◌+◌, ◌-◌, ◌≤◌, ◌<◌, ◌≡◌, refl, arith, Bool, true, false, not, ◌&&◌, ◌||◌, ltb, List,
  length, if◌then◌else◌,
}
use nuke.Path.Interface.{char_at}
use nuke.Path.Windows.{
  get_root_length, unc_root, device_root, drive_root, skip_share, skip_name, is_device,
  is_device_unc, is_extended, is_directory_separator,
}

guarded :
    (b : Bool) (rest i len : ℕ)
    → i ≤ len
    → (i < len → rest ≤ len)
    → (if ltb i len && b then rest else i) ≤ len
guarded true rest i len h within = grind arith
guarded false rest i len h within = ground arith

skip_share_within :
    (path : List ℕ) (fuel i n : ℕ) → i ≤ length path → skip_share path fuel i n ≤ length path
unfolding skip_share
skip_share_within path zero i n h = h
skip_share_within path (suc fuel) i n h =
    guarded _ _ i (length path) h (λ below. skip_share_within path fuel (suc i) _ (omega arith))

skip_name_within :
    (path : List ℕ) (fuel i : ℕ) → i ≤ length path → skip_name path fuel i ≤ length path
unfolding skip_name
skip_name_within path zero i h = h
skip_name_within path (suc fuel) i h =
    guarded _ _ i (length path) h (λ below. skip_name_within path fuel (suc i) (omega arith))

device_length : (path : List ℕ) → is_device path ≡ true → 4 ≤ length path
unfolding is_device is_extended
device_length path h = ground arith

device_unc_length : (path : List ℕ) → is_device_unc path ≡ true → 8 ≤ length path
unfolding is_device_unc
device_unc_length path h = ground arith

drive_root_within : (path : List ℕ) → drive_root path ≤ length path
unfolding drive_root
drive_root_within path = ground arith

device_root_within : (path : List ℕ) → is_device path ≡ true → device_root path ≤ length path
unfolding device_root
device_root_within path h =
    ground (arith, skip_name_within path (length path) 4 (device_length path h))

unc_start :
    (b : Bool) (rest len : ℕ)
    → 0 < len
    → (1 < len → rest ≤ len)
    → (if ltb 1 len && b then rest else 1) ≤ len
unc_start true rest len h within = grind arith
unc_start false rest len h within = ground arith

unc_root_within :
    (path : List ℕ) (unc : Bool)
    → (unc ≡ true → 8 ≤ length path)
    → 0 < length path
    → unc_root path unc ≤ length path
unfolding unc_root
unc_root_within path true large filled = skip_share_within path (length path) 8 2 (large refl)
unc_root_within path false large filled =
    unc_start (is_directory_separator (char_at path 1)) _ (length path) filled
      (λ more. skip_share_within path (length path) 2 2 (omega arith))

-- The choice between the three branches, with the decisions of `GetRootLength`.
root_choice :
    (device unc starts : Bool) (len share name drive : ℕ)
    → (0 < len → share ≤ len)
    → (device ≡ true → name ≤ len)
    → drive ≤ len
    → (if (not device || unc) && ltb 0 len && starts then share else if device then name else drive)
      ≤ len
root_choice device unc starts len share name drive hs hn hd = grind arith

and_right : (p q : Bool) → (p && q) ≡ true → q ≡ true
and_right true q e = e
and_right false q e = cc

-- `GetRootLength` for Windows never exceeds the length of the path.
pub get_root_length-le-length : (path : List ℕ) → get_root_length path ≤ length path
unfolding get_root_length
get_root_length-le-length path =
    root_choice (is_device path) (is_device path && is_device_unc path) _ (length path) _ _ _
      (λ filled.
        unc_root_within path (is_device path && is_device_unc path)
          (λ unc. device_unc_length path (and_right _ _ unc)) filled)
      (λ device. device_root_within path device) (drive_root_within path)

-- More fuel than the characters behind `i` changes nothing.
skip_name_fuel :
    (path : List ℕ) (fuel i : ℕ)
    → length path ≤ i + fuel
    → skip_name path (suc fuel) i ≡ skip_name path fuel i
unfolding skip_name
skip_name_fuel path zero i h = ground arith
skip_name_fuel path (suc fuel) i h = rw (skip_name_fuel path fuel (suc i) (omega arith)) refl

skip_share_fuel :
    (path : List ℕ) (fuel i n : ℕ)
    → length path ≤ i + fuel
    → skip_share path (suc fuel) i n ≡ skip_share path fuel i n
unfolding skip_share
skip_share_fuel path zero i n h = ground arith
skip_share_fuel path (suc fuel) i n h =
    rw
      (skip_share_fuel path fuel (suc i)
        (if is_directory_separator (char_at path i) then n - 1 else n) (omega arith))
      refl
