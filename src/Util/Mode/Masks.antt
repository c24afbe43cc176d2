-- ===== src/Util/Mode/Masks.antt =====
-- What an operator and a mask do to each permission bit.
use Prim.Native.Nat.{bit_and, bit_or}
use mathlib.Core.Option.{none-ne-some}
use sophons.Base.{
  inl, inr, ℕ, ◌≡◌, ◌∙◌, Bool, true, false, not, ◌&&◌, ◌||◌, some, List, [], ◌∷◌, arith, ◌==◌,
  Option-cases, if◌then◌else◌,
}
use sophons.Base.Bits.{test, and_not, test-bit_and, test-bit_or, test-and_not}
use sophons.Base.Text.{contains}
use sophons.Util.Mode.{
  add_bits, perm_case, perms_mask, assign, apply_op, everyone, user_read, user_write, user_exec,
  group_read, group_write, group_exec, other_read, other_write, other_exec,
}

pub data Class : Type 0 where
  user group others : Class

pub data Permission : Type 0 where
  can_read can_write can_exec : Permission

abbrev pub class_letter : Class → ℕ
class_letter user = b'u'
class_letter group = b'g'
class_letter others = b'o'

abbrev pub perm_letter : Permission → ℕ
perm_letter can_read = b'r'
perm_letter can_write = b'w'
perm_letter can_exec = b'x'

-- The position of the bit in a mode: rwxrwxrwx, from 8 down to 0.
abbrev pub position : Class → Permission → ℕ
position user can_read = 8
position user can_write = 7
position user can_exec = 6
position group can_read = 5
position group can_write = 4
position group can_exec = 3
position others can_read = 2
position others can_write = 1
position others can_exec = 0

test-add_bits :
    (who : List ℕ) (u g o mask i : ℕ)
    → test i (add_bits who u g o mask) ≡ (
        test i mask
        || (contains who b'u' && test i u)
        || (contains who b'g' && test i g)
        || (contains who b'o' && test i o))
unfolding add_bits
test-add_bits who u g o mask i = ground (
  arith,
  test-bit_or i mask u,
  test-bit_or i mask g,
  test-bit_or i mask o,
  test-bit_or i (bit_or mask u) g,
  test-bit_or i (bit_or mask u) o,
  test-bit_or i (bit_or mask g) o,
  test-bit_or i (bit_or (bit_or mask u) g) o,
)

abbrev same_class : Class → Class → Bool
same_class user user = true
same_class group group = true
same_class others others = true
same_class _ _ = false

abbrev same_permission : Permission → Permission → Bool
same_permission can_read can_read = true
same_permission can_write can_write = true
same_permission can_exec can_exec = true
same_permission _ _ = false

-- The constants of mode.go.
abbrev bit_value : Class → Permission → ℕ
bit_value user can_read = user_read
bit_value user can_write = user_write
bit_value user can_exec = user_exec
bit_value group can_read = group_read
bit_value group can_write = group_write
bit_value group can_exec = group_exec
bit_value others can_read = other_read
bit_value others can_write = other_write
bit_value others can_exec = other_exec

test-bit_value :
    (c c' : Class) (q q' : Permission)
    → test (position c q) (bit_value c' q') ≡ (same_class c c' && same_permission q q')
unfolding test
test-bit_value c c' q q' = ground arith

test-add_permission :
    (who : List ℕ) (q' : Permission) (mask : ℕ) (c : Class) (q : Permission)
    → test
        (position c q)
        (add_bits who (bit_value user q') (bit_value group q') (bit_value others q') mask)
      ≡ (test (position c q) mask || (contains who (class_letter c) && same_permission q q'))
test-add_permission who q' mask c q =
    test-add_bits who (bit_value user q') (bit_value group q') (bit_value others q') mask
      (position c q)
    ∙ rw (test-bit_value c user q q', test-bit_value c group q q', test-bit_value c others q q')
        (pick c q)
  where
    pick :
        (c : Class) (q : Permission)
        → (test (position c q) mask
            || (contains who b'u' && (same_class c user && same_permission q q'))
            || (contains who b'g' && (same_class c group && same_permission q q'))
            || (contains who b'o' && (same_class c others && same_permission q q')))
          ≡ (test (position c q) mask || (contains who (class_letter c) && same_permission q q'))
    pick user q = ground arith
    pick group q = ground arith
    pick others q = ground arith

test-perm_case :
    (who : List ℕ) (p mask : ℕ) (c : Class) (q : Permission) {mask' : ℕ}
    → perm_case who p mask ≡ some mask'
    → test (position c q) mask'
      ≡ (test (position c q) mask || (contains who (class_letter c) && p == perm_letter q))
test-perm_case who p mask c can_read h = ground (
  arith,
  test-add_permission who can_read mask c can_read,
  test-add_permission who can_write mask c can_read,
  test-add_permission who can_exec mask c can_read,
)
test-perm_case who p mask c can_write h = ground (
  arith,
  test-add_permission who can_read mask c can_write,
  test-add_permission who can_write mask c can_write,
  test-add_permission who can_exec mask c can_write,
)
test-perm_case who p mask c can_exec h = ground (
  arith,
  test-add_permission who can_read mask c can_exec,
  test-add_permission who can_write mask c can_exec,
  test-add_permission who can_exec mask c can_exec,
)

-- The mask has the bits of the named classes and the named permissions.
pub test-perms_mask :
    (who perms : List ℕ) (mask : ℕ) (c : Class) (q : Permission) {m : ℕ}
    → perms_mask who perms mask ≡ some m
    → test (position c q) m ≡ (
        test (position c q) mask
        || (contains who (class_letter c) && contains perms (perm_letter q)))
unfolding perms_mask contains
test-perms_mask who [] mask c q h = ground arith
test-perms_mask who (p ∷ perms) mask c q {m} h = elim (Option-cases (perm_case who p mask)) [
  | inl e ↦ absurd (none-ne-some m (rw (e, perms_mask) at h))
  | inr (mask', e) ↦
      test-perms_mask who perms mask' c q (rw (e, perms_mask) at h)
      ∙ rw (test-perm_case who p mask c q e) (ground arith)
]

-- The bit that an operator makes of the old bit, where `named` says that the clause names the class
-- and `given` that it gives the permission.
abbrev pub new_bit : ℕ → Bool → Bool → Bool → Bool
new_bit op named given old =
    if op == b'+'
    then old || (named && given)
    else if op == b'-'
    then old && not (named && given)
    else if named
    then given
    else old

pub test-zero : (c : Class) (q : Permission) → test (position c q) 0 ≡ false
unfolding test
test-zero c q = ground arith

-- The three class masks of the operator `=`.
abbrev class_mask : Class → ℕ
class_mask user = 0o700
class_mask group = 0o070
class_mask others = 0o007

test-class_mask :
    (c c' : Class) (q : Permission) → test (position c q) (class_mask c') ≡ same_class c c'
unfolding test
test-class_mask c c' q = ground arith

test-assign :
    (on : Bool) (c' : Class) (mask mode : ℕ) (c : Class) (q : Permission)
    → test (position c q) (assign on (class_mask c') mask mode)
      ≡ (if on && same_class c c' then test (position c q) mask else test (position c q) mode)
test-assign on c' mask mode c q = ground (
  arith,
  test-bit_or (position c q) (and_not mode (class_mask c')) (bit_and mask (class_mask c')),
  test-and_not (position c q) mode (class_mask c'),
  test-bit_and (position c q) mask (class_mask c'),
  test-class_mask c c' q,
)

-- A clause names a class by its letter, or all three by `a`.
abbrev pub names : List ℕ → Class → Bool
names who c = contains who b'a' || contains who (class_letter c)

contains-everyone : (c : Class) → contains everyone (class_letter c) ≡ true
unfolding contains
contains-everyone c = ground arith

test-assign_all :
    (who : List ℕ) (mask mode : ℕ) (c : Class) (q : Permission)
    → test (position c q) (
        assign
          (contains who b'o')
          0o007
          mask
          (assign (contains who b'g') 0o070 mask (assign (contains who b'u') 0o700 mask mode)))
      ≡ (if contains who (class_letter c)
          then test (position c q) mask
          else test (position c q) mode)
test-assign_all who mask mode c q =
    let after_user = assign (contains who b'u') 0o700 mask mode in
    let after_group = assign (contains who b'g') 0o070 mask after_user in
    test-assign (contains who b'o') others mask after_group c q
    ∙ rw
        (
          test-assign (contains who b'g') group mask after_user c q,
          test-assign (contains who b'u') user mask mode c q,
        )
        (pick c)
  where
    pick :
        (c : Class)
        → (if contains who b'o' && same_class c others
            then test (position c q) mask
            else if contains who b'g' && same_class c group
            then test (position c q) mask
            else if contains who b'u' && same_class c user
            then test (position c q) mask
            else test (position c q) mode)
          ≡ (if contains who (class_letter c)
              then test (position c q) mask
              else test (position c q) mode)
    pick user = ground arith
    pick group = ground arith
    pick others = ground arith

pub test-apply_op :
    (op : ℕ) (who : List ℕ) (mask mode : ℕ) (c : Class) (q : Permission) (given : Bool) {m : ℕ}
    → test (position c q) mask ≡ (contains who (class_letter c) && given)
    → apply_op op who mask mode ≡ some m
    → test (position c q) m
      ≡ new_bit op (contains who (class_letter c)) given (test (position c q) mode)
unfolding apply_op
test-apply_op op who mask mode c q given hm h = ground (
  arith,
  test-bit_or (position c q) mode mask,
  test-and_not (position c q) mode mask,
  test-assign_all who mask mode c q,
)

pub names_lem :
    (who : List ℕ) (c : Class)
    → contains (if contains who b'a' then everyone else who) (class_letter c) ≡ names who c
names_lem who c = ground (arith, contains-everyone c)
