-- ===== src/Util/Mode/Clauses.antt =====
-- What a symbolic clause does to each permission bit.
use mathlib.Core.Option.{none-ne-some}
use sophons.Base.{
  String, inl, inr, ℕ, ◌≡◌, ◌∙◌, ap, Bool, Option, none, some, List, [], ◌∷◌, arith, Option-cases,
  if◌then◌else◌,
}
use sophons.Base.Bits.{test}
use sophons.Base.Text.{codes, contains, split, trim_space}
use sophons.Util.Mode.{
  perms_mask, everyone, apply_clause, cut, clause_at, apply_part, apply_parts, mode_from_spec,
}
use sophons.Util.Mode.Masks.{
  Class, Permission, names, names_lem, new_bit, perm_letter, position, test-apply_op,
  test-perms_mask, test-zero,
}

-- A clause that is accepted sets each permission bit as its operator says: `+` adds, `-` takes away,
-- and `=` gives a named class exactly the permissions of the clause; classes that are not named
-- keep their bits.
pub apply_clause_bits :
    (who : List ℕ) (op mode : ℕ) (perms : List ℕ) (c : Class) (q : Permission) {m : ℕ}
    → apply_clause who op mode perms ≡ some m
    → test (position c q) m
      ≡ new_bit op (names who c) (contains perms (perm_letter q)) (test (position c q) mode)
unfolding apply_clause
apply_clause_bits who op mode perms c q {m} h =
    let who' = if contains who b'a' then everyone else who in
    elim (Option-cases (perms_mask who' perms 0)) [
      | inl e ↦ absurd (none-ne-some m (rw (e, apply_clause) at h))
      | inr (mask, e) ↦ rw (← names_lem who c) (
          test-apply_op op who' mask mode c q (contains perms (perm_letter q))
            (test-perms_mask who' perms 0 c q e ∙ rw test-zero) (rw (e, apply_clause) at h))
    ]

-- The effect of one clause of a specification on a bit, read off its text.
abbrev pub cut_bit : Option (List ℕ × ℕ × List ℕ) → Class → Permission → Bool → Bool
cut_bit none c q old = old
cut_bit (some t) c q old = new_bit t.1 (names t.0 c) (contains t.2 (perm_letter q)) old

-- The clauses act on the bit one after the other.
abbrev pub parts_bit : List (List ℕ) → Class → Permission → Bool → Bool
parts_bit [] c q old = old
parts_bit (part ∷ parts) c q old = parts_bit parts c q (cut_bit (cut (trim_space part)) c q old)

apply_part_bits :
    (part : List ℕ) (mode : ℕ) (c : Class) (q : Permission) {m : ℕ}
    → apply_part part mode ≡ some m
    → test (position c q) m ≡ cut_bit (cut part) c q (test (position c q) mode)
unfolding apply_part cut
apply_part_bits [] mode c q h = ground arith
apply_part_bits (x ∷ part) mode c q h = at (cut (x ∷ part)) h
  where
    at :
        (o : Option (List ℕ × ℕ × List ℕ)) {m : ℕ}
        → clause_at o mode ≡ some m
        → test (position c q) m ≡ cut_bit o c q (test (position c q) mode)
    at none h = cc
    at (some (who, op, [])) h = cc
    at (some (who, op, p ∷ perms)) h = apply_clause_bits who op mode (p ∷ perms) c q h

apply_parts_bits :
    (parts : List (List ℕ)) (mode : ℕ) (c : Class) (q : Permission) {m : ℕ}
    → apply_parts parts mode ≡ some m
    → test (position c q) m ≡ parts_bit parts c q (test (position c q) mode)
unfolding apply_parts
apply_parts_bits [] mode c q h = ground arith
apply_parts_bits (part ∷ parts) mode c q {m} h =
    elim (Option-cases (apply_part (trim_space part) mode)) [
      | inl e ↦ absurd (none-ne-some m (rw (e, apply_parts) at h))
      | inr (mode', e) ↦
          apply_parts_bits parts mode' c q (rw (e, apply_parts) at h)
          ∙ ap (parts_bit parts c q) (apply_part_bits (trim_space part) mode c q e)
    ]

-- A specification that is accepted sets each of the nine permission bits as its comma-separated
-- clauses say, from left to right: `+` adds, `-` takes away, `=` gives exactly the permissions
-- listed, to the classes that the clause names (`a` names all three), and no others.
pub mode_from_spec_bits :
    (perm : ℕ) (spec : String) (c : Class) (q : Permission) {m : ℕ}
    → mode_from_spec perm spec ≡ some m
    → test (position c q) m ≡ parts_bit (split b',' (codes spec)) c q (test (position c q) perm)
unfolding mode_from_spec
mode_from_spec_bits perm spec c q h = apply_parts_bits (split b',' (codes spec)) perm c q h
