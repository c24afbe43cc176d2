-- ===== src/Proto/Aliases/Laws.antt =====
-- Of the names of a parameter the first that is given counts, and the other parameters stay.
use sophons.Base.{ℕ, String, Bool, Option, none, some, List, [], ◌∷◌, ◌≡◌, refl, ap}
use sophons.Base.Action.{Outcome, ok}
use sophons.Apt.{Apt}
use sophons.Proto.Aliases.{AptAliases, items_of, given_or, unmarshal_apt, alias_name}

-- The flag under update_cache, or else the one under update-cache.
abbrev pub flag : Option Bool → Bool → Bool
flag none other = other
flag (some own) other = own

given_or-flag :
    (own : Option Bool) (other : Bool) → given_or own (some other) ≡ some (flag own other)
given_or-flag none other = refl
given_or-flag (some own) other = refl

-- The first list with something in it.
abbrev pub first_given : List (List String) → List String
first_given [] = []
first_given ([] ∷ more) = first_given more
first_given ((x ∷ xs) ∷ more) = x ∷ xs

items_of-alias_name :
    (name : Option (List String)) (of_package of_pkg : List String)
    → items_of (alias_name name of_package of_pkg)
      ≡ first_given (items_of name ∷ of_package ∷ of_pkg ∷ [])
unfolding alias_name
items_of-alias_name (some (x ∷ xs)) of_package of_pkg = refl
items_of-alias_name (some []) (x ∷ xs) of_pkg = refl
items_of-alias_name (some []) [] (x ∷ xs) = refl
items_of-alias_name (some []) [] [] = refl
items_of-alias_name none (x ∷ xs) of_pkg = refl
items_of-alias_name none [] (x ∷ xs) = refl
items_of-alias_name none [] [] = refl

-- Where the library fills the message of a task apt, and the other names, the task is read: its
-- packages are the first list that is not empty of those under name, package and pkg, its
-- update_cache is set, and its other parameters are the message's.
pub unmarshal_apt-items :
    (plain : List ℕ → Outcome Apt) (other : List ℕ → Outcome AptAliases) (b : List ℕ) (p : Apt)
    (aux : AptAliases)
    → plain b ≡ ok p
    → other b ≡ ok aux
    → (name : Option (List String)) × (unmarshal_apt plain other b
        ≡ ok (record p { name = name; update_cache = some (flag p.update_cache aux.update_cache) }))
      × (items_of name ≡ first_given (items_of p.name ∷ aux.«package» ∷ aux.pkg ∷ []))
unfolding unmarshal_apt
unmarshal_apt-items plain other b p aux h1 h2 = (
  alias_name p.name aux.«package» aux.pkg,
  rw (h1, h2)
      (ap (λ u. ok (record p { name = alias_name p.name aux.«package» aux.pkg; update_cache = u }))
        (given_or-flag p.update_cache aux.update_cache)),
  items_of-alias_name p.name aux.«package» aux.pkg,
)
