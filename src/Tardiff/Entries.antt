-- ===== src/Tardiff/Entries.antt =====
-- What the entries of an archive are, path by path.
use sophons.Base.{
  arith, ◌≡◌, ◌↔◌, ◌∙◌, sym, ap, refl, String, str_eq, eq_iff, Bool, true, false, not, ◌&&◌,
  Bool-cases, inl, inr, Option, none, some, is_some, [], ◌∷◌, ==_iff, if◌then◌else◌,
}
use sophons.Base.Dict.{Dict, lookup, insert, lookup-insert, has, or_else}
use sophons.Base.Int.{ℤ, pos, negsuc}
use sophons.Base.Action.{ok, err, panic, and_then-ok, ok-injective, err≢ok, panic≢ok}
use sophons.Tardiff.{
  Entry, Archive, filter_out, path_of, entry_of, tar_to_entries, int_eq, entry_eq,
}

-- Each key stands once.
abbrev pub Unique : {V : Type 0} → Dict V → Type 0
Unique [] = Unit
Unique ((k, v) ∷ m) = (has k m ≡ false) × Unique m

str_eq-sym : (a b : String) → str_eq a b ≡ false → str_eq b a ≡ false
str_eq-sym a b h = ground (arith, eq_iff a b, eq_iff b a)

module _ {V : Type 0} where
  insert-Unique : (k : String) (v : V) (m : Dict V) → Unique m → Unique (insert k v m)
  unfolding insert lookup
  insert-Unique k v [] h = (refl, tt)
  insert-Unique k v ((j, w) ∷ m) (h, hs) = elim (Bool-cases (str_eq k j)) [
    | inl e ↦ rw (e, (eq_iff k j).0 e) (h, hs)
    | inr e ↦
        rw e (ap is_some (lookup-insert j k v m) ∙ rw (str_eq-sym k j e) h, insert-Unique k v m hs)
  ]

-- The last entry of an archive under a path, of those that are not filtered out.
abbrev pub last_entry : String → Archive → Option Entry
last_entry k [] = none
last_entry k (ok (h, ok sum) ∷ archive) =
    or_else (last_entry k archive)
      (if not (filter_out h.name) && str_eq k (path_of h) then some (entry_of h sum) else none)
last_entry k (_ ∷ archive) = last_entry k archive

int_eq_iff : (a b : ℤ) → (int_eq a b ≡ true) ↔ (a ≡ b)
int_eq_iff (pos m) (pos n) = (λ h. ap pos ((==_iff m n).0 h), λ h. (==_iff m n).1 (cc))
int_eq_iff (pos m) (negsuc n) = ground arith
int_eq_iff (negsuc m) (pos n) = ground arith
int_eq_iff (negsuc m) (negsuc n) = (λ h. ap negsuc ((==_iff m n).0 h), λ h. (==_iff m n).1 (cc))

pub entry_eq_iff : (a b : Entry) → (entry_eq a b ≡ true) ↔ (a ≡ b)
unfolding entry_eq
entry_eq_iff a b = ground (
  arith,
  eq_iff a.hash b.hash,
  eq_iff a.linkname b.linkname,
  int_eq_iff a.size b.size,
  int_eq_iff a.mode b.mode,
  int_eq_iff a.uid b.uid,
  int_eq_iff a.gid b.gid,
  eq_iff a.uname b.uname,
  eq_iff a.gname b.gname,
)

pub or_else-none : {A : Type 0} (a : Option A) → or_else a none ≡ a
or_else-none none = refl
or_else-none (some a) = refl

or_else-if :
    {A : Type 0} (a : Option A) (b : Bool) (x : A) (o : Option A)
    → or_else a (if b then some x else o) ≡ or_else (or_else a (if b then some x else none)) o
or_else-if none true x o = refl
or_else-if none false x o = refl
or_else-if (some a) b x o = refl

pub lookup-tar_to_entries :
    (archive : Archive) (out m : Dict Entry) (k : String)
    → tar_to_entries archive out ≡ ok m
    → lookup k m ≡ or_else (last_entry k archive) (lookup k out)
unfolding tar_to_entries
lookup-tar_to_entries [] out m k h = ap (lookup k) (sym (ok-injective h))
lookup-tar_to_entries (ok (hd, ok sum) ∷ archive) out m k h =
    elim (Bool-cases (filter_out hd.name)) [
      | inl f ↦
          rw (f, or_else-none (last_entry k archive))
            (lookup-tar_to_entries archive out m k (rw f at h))
      | inr f ↦ rw f (
          lookup-tar_to_entries archive (insert (path_of hd) (entry_of hd sum) out) m k (rw f at h)
          ∙ rw (lookup-insert k (path_of hd) (entry_of hd sum) out) (
              or_else-if (last_entry k archive) (str_eq k (path_of hd)) (entry_of hd sum)
                (lookup k out)))
    ]
lookup-tar_to_entries (ok (hd, err e) ∷ archive) out m k h =
    elim (Bool-cases (filter_out hd.name)) [
      | inl f ↦ lookup-tar_to_entries archive out m k (rw f at h)
      | inr f ↦ absurd (err≢ok (rw f at h))
    ]
lookup-tar_to_entries (ok (hd, panic) ∷ archive) out m k h =
    elim (Bool-cases (filter_out hd.name)) [
      | inl f ↦ lookup-tar_to_entries archive out m k (rw f at h)
      | inr f ↦ absurd (panic≢ok (rw f at h))
    ]
lookup-tar_to_entries (err e ∷ archive) out m k h = absurd (err≢ok h)
lookup-tar_to_entries (panic ∷ archive) out m k h = absurd (panic≢ok h)

pub tar_to_entries-Unique :
    (archive : Archive) (out m : Dict Entry)
    → Unique out
    → tar_to_entries archive out ≡ ok m
    → Unique m
unfolding tar_to_entries
tar_to_entries-Unique [] out m u h = rw (ok-injective h) at u
tar_to_entries-Unique (next ∷ archive) out m u h =
    let ((hd, hash), e, h1) = and_then-ok next _ h in
    elim (Bool-cases (filter_out hd.name)) [
      | inl f ↦ tar_to_entries-Unique archive out m u (rw f at h1)
      | inr f ↦
          let (sum, e', h2) = and_then-ok hash _ (rw f at h1) in
          tar_to_entries-Unique archive _ m (insert-Unique (path_of hd) (entry_of hd sum) out u) h2
    ]
