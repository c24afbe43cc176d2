-- ===== src/Tardiff/Laws.antt =====
-- The tool succeeds exactly where the two archives have the same entries.
use sophons.Base.{
  arith, ◌≡◌, ◌↔◌, ◌≢◌, ◌∙◌, sym, ap, refl, String, str_eq, eq_iff, Bool, true, false, not, ◌&&◌,
  ◌||◌, Bool-cases, inl, inr, Option, none, some, Option-cases, is_some, List, [], ◌∷◌, is_empty,
}
use mathlib.Core.Bool.{true≢false}
use sophons.Base.Text.{All}
use sophons.Base.Dict.{Dict, lookup, has}
use sophons.Base.Action.{ok}
use sophons.Tardiff.{
  Entry, Archive, tar_to_entries, add_left, compare_left, only_right, is_different, exit_of, main,
}
use sophons.Tardiff.Entries.{
  Unique, or_else-none, last_entry, lookup-tar_to_entries, tar_to_entries-Unique, entry_eq_iff,
}

-- What the loop over the left map finds nothing to say of.
abbrev pub AllIn : Dict Entry → Dict Entry → Type 0
AllIn right left = All (λ (k, v). lookup k right ≡ some v) left

abbrev nothing : List String × List String → Bool
nothing (only, diff) = is_empty only && is_empty diff

nothing-add_left :
    (k : String) (v : Entry) (o : Option Entry) (r : List String × List String)
    → (nothing (add_left k v o r) ≡ true) ↔ ((o ≡ some v) × (nothing r ≡ true))
nothing-add_left k v none (only, diff) = ground arith
nothing-add_left k v (some w) (only, diff) = ground (arith, entry_eq_iff v w)

compare_left_iff :
    (right left : Dict Entry) → (nothing (compare_left right left) ≡ true) ↔ AllIn right left
unfolding compare_left
compare_left_iff right [] = (λ h. tt, λ h. refl)
compare_left_iff right ((k, v) ∷ left) =
    let (to, from) = nothing-add_left k v (lookup k right) (compare_left right left) in
    let (to', from') = compare_left_iff right left in
    (λ h. let (e, h') = to h in (e, to' h'), λ (e, h). from (e, from' h))

only_right_iff :
    (left right : Dict Entry)
    → (is_empty (only_right left right) ≡ true) ↔ All (λ (k, v). has k left ≡ true) right
unfolding only_right
only_right_iff left [] = (λ h. tt, λ h. refl)
only_right_iff left ((k, v) ∷ right) = ground (arith, only_right_iff left right)

All-map :
    {A : Type 0} (P Q : A → Type 0) (xs : List A) → ((a : A) → P a → Q a) → All P xs → All Q xs
All-map P Q [] f h = tt
All-map P Q (x ∷ xs) f (h, hs) = (f x h, All-map P Q xs f hs)

some≢none : {A : Type 0} {a : A} → some a ≢ none
some≢none h = cc

-- What holds of all entries of a map holds of one that is found.
found_in :
    (P : String → Entry → Type 0) (m : Dict Entry) (k : String) (v : Entry)
    → All (λ (k, v). P k v) m
    → lookup k m ≡ some v
    → P k v
unfolding lookup
found_in P [] k v h e = absurd (some≢none (sym e))
found_in P ((j, w) ∷ m) k v (h, hs) e = elim (Bool-cases (str_eq k j)) [
  | inl same ↦
      let found : some w ≡ some v = rw same at e in
      let value : w ≡ v = cc in rw ((eq_iff k j).0 same, sym value) h
  | inr other ↦ found_in P m k v hs (rw other at e)
]

later :
    (j : String) (w : Entry) (m : Dict Entry) (k : String) (v : Entry)
    → has j m ≡ false
    → lookup k m ≡ some v
    → lookup k ((j, w) ∷ m) ≡ some v
unfolding lookup
later j w m k v u h = elim (Bool-cases (str_eq k j)) [
  | inl same ↦ absurd (true≢false (sym (ap is_some (rw ((eq_iff k j).0 same) at h)) ∙ u))
  | inr other ↦ rw other h
]

own_entries : (m : Dict Entry) → Unique m → All (λ (k, v). lookup k m ≡ some v) m
unfolding lookup
own_entries [] u = tt
own_entries ((j, w) ∷ m) (u, us) = (
  rw ((eq_iff j j).1 refl) refl,
  All-map _ _ m (λ (k, v) h. later j w m k v u h) (own_entries m us),
)

has_later : (k j : String) (w : Entry) (m : Dict Entry) → has k m ≡ true → has k ((j, w) ∷ m) ≡ true
unfolding lookup
has_later k j w m h = ground arith

own_keys : (m : Dict Entry) → All (λ (k, v). has k m ≡ true) m
unfolding lookup
own_keys [] = tt
own_keys ((j, w) ∷ m) =
    (rw ((eq_iff j j).1 refl) refl, All-map _ _ m (λ (k, v) h. has_later k j w m h) (own_keys m))

-- The maps agree where the left has no entry that the right has not, and the right no path.
agree :
    (left right : Dict Entry)
    → Unique left
    → (AllIn right left × All (λ (k, v). has k left ≡ true) right)
      ↔ ((k : String) → lookup k left ≡ lookup k right)
agree left right u = (
  λ (ins, outs) k. elim (Option-cases (lookup k left)) [
    | inr (v, e) ↦ e ∙ sym (found_in (λ k v. lookup k right ≡ some v) left k v ins e)
    | inl e ↦ elim (Option-cases (lookup k right)) [
      | inl e' ↦ e ∙ sym e'
      | inr (w, e') ↦
          absurd (
            true≢false (sym (found_in (λ k v. has k left ≡ true) right k w outs e') ∙ ap is_some e))
    ]
  ],
  λ h. (
    All-map _ _ left (λ (k, v) e. sym (h k) ∙ e) (own_entries left u),
    All-map _ _ right (λ (k, v) e. ap is_some (h k) ∙ e) (own_keys right),
  ),
)

none_left : (a b c : Bool) → ((not a || not b || not c) ≡ false) ↔ (((a && c) ≡ true) × (b ≡ true))
none_left a b c = ground arith

is_different_iff :
    (left right : Dict Entry)
    → Unique left
    → (is_different left right ≡ false) ↔ ((k : String) → lookup k left ≡ lookup k right)
unfolding is_different
is_different_iff left right u =
    let r = compare_left right left in
    let (split, join) =
      none_left (is_empty r.0) (is_empty (only_right left right)) (is_empty r.1) in
    let (to, from) = compare_left_iff right left in
    let (to', from') = only_right_iff left right in
    let (apart, together) = agree left right u in
    (
      λ h. let (a, b) = split h in apart (to a, to' b),
      λ h. let (a, b) = together h in join (from a, from' b),
    )

exit_iff : (b : Bool) → (exit_of (ok b) ≡ 0) ↔ (b ≡ false)
exit_iff b = ground arith

looked_up :
    (archive : Archive) (m : Dict Entry) (k : String)
    → tar_to_entries archive [] ≡ ok m
    → lookup k m ≡ last_entry k archive
unfolding lookup
looked_up archive m k h =
    lookup-tar_to_entries archive [] m k h ∙ or_else-none (last_entry k archive)

-- Of two archives that can be read, the tool says nothing and exits with 0 exactly where each path
-- that is not filtered out has the same last entry in both, or none in both.
pub main_zero_iff :
    (first second : Archive) (left right : Dict Entry)
    → tar_to_entries first [] ≡ ok left
    → tar_to_entries second [] ≡ ok right
    → (main first second ≡ 0) ↔ ((k : String) → last_entry k first ≡ last_entry k second)
unfolding main
main_zero_iff first second left right h1 h2 =
    let (to, from) = exit_iff (is_different left right) in
    let (same, unsame) = is_different_iff left right (tar_to_entries-Unique first [] left tt h1) in
    rw (h1, h2)
      (
        λ h k. sym (looked_up first left k h1) ∙ same (to h) k ∙ looked_up second right k h2,
        λ h.
            from
              (unsame (λ k. looked_up first left k h1 ∙ h k ∙ sym (looked_up second right k h2))),
      )
