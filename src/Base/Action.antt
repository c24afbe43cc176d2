-- ===== src/Base/Action.antt =====
-- Go functions that return an error, may panic, and change a state. What was written before an
-- error stays written, so the state comes back beside the error too.
use Prim.Native.String.{String}
use mathlib.Core.Path.{◌≡◌, refl}
use mathlib.Core.Logic.{◌≢◌}
use mathlib.Core.Bool.{Bool, true, false}
use mathlib.Core.List.{List, [], ◌∷◌}

-- Go's `error`. `not_exist` is fs.ErrNotExist, `exist` is fs.ErrExist, `wrapped` is fmt.Errorf with
-- %w. The values that a message formats are left out.
pub data Error : Type 0 where
  not_exist exist : Error
  message : String → Error
  wrapped : String → Error → Error

-- errors.Is(err, fs.ErrNotExist), errors.Is(err, fs.ErrExist)
abbrev pub is_not_exist : Error → Bool
is_not_exist not_exist = true
is_not_exist exist = false
is_not_exist (message s) = false
is_not_exist (wrapped s e) = is_not_exist e

abbrev pub is_exist : Error → Bool
is_exist not_exist = false
is_exist exist = true
is_exist (message s) = false
is_exist (wrapped s e) = is_exist e

-- `panic` is a run-time panic: an index out of range, a nil dereference.
pub data Outcome {ℓ} (A : Type ℓ) : Type ℓ where
  ok : A → Outcome A
  err : Error → Outcome A
  panic : Outcome A

pub ok-injective {ℓ} : {A : Type ℓ} {a b : A} → ok a ≡ ok b → a ≡ b
ok-injective h = cc

pub err≢ok {ℓ} : {A : Type ℓ} {e : Error} {a : A} → err e ≢ ok a
err≢ok h = cc

pub panic≢ok {ℓ} : {A : Type ℓ} {a : A} → panic ≢ ok a
panic≢ok h = cc

abbrev pub Action {ℓ} : Type ℓ → Type ℓ → Type ℓ
Action S A = S → Outcome A × S

-- What a caller does with `if err != nil { return fmt.Errorf(context, err) }`.
abbrev pub wrap {ℓ} : {A : Type ℓ} → String → Outcome A → Outcome A
wrap s (ok a) = ok a
wrap s (err e) = err (wrapped s e)
wrap s panic = panic

-- A chain of fallible reads.
abbrev pub and_then {ℓ κ} : {A : Type ℓ} {B : Type κ} → Outcome A → (A → Outcome B) → Outcome B
and_then (ok a) f = f a
and_then (err e) f = err e
and_then panic f = panic

pub and_then-ok {ℓ κ} :
    {A : Type ℓ} {B : Type κ} (r : Outcome A) (f : A → Outcome B) {b : B}
    → and_then r f ≡ ok b
    → (a : A) × (r ≡ ok a) × (f a ≡ ok b)
and_then-ok (ok a) f h = (a, refl, h)
and_then-ok (err e) f h = absurd (err≢ok h)
and_then-ok panic f h = absurd (panic≢ok h)

module _ {ℓ} {S A : Type ℓ} where
  unfoldable pub pure : A → Action S A
  pure a s = (ok a, s)

  unfoldable pub raise : Error → Action S A
  raise e s = (err e, s)

  unfoldable pub read : (S → Outcome A) → Action S A
  read f s = (f s, s)

  unfoldable pub wrapping : String → Action S A → Action S A
  wrapping text m s = let (r, s') = m s in (wrap text r, s')

module _ {ℓ} {S A B : Type ℓ} where
  abbrev pub continue : Outcome A → (A → Action S B) → Action S B
  continue (ok a) f s = f a s
  continue (err e) f s = (err e, s)
  continue panic f s = (panic, s)

  infixl 5 ◌>>=◌ ◌>>◌
  -- Opening this opens the actions above too.
  unfoldable pub ◌>>=◌ : Action S A → (A → Action S B) → Action S B
  unfolding pure raise read wrapping
  ◌>>=◌ m f s = let (r, s') = m s in continue r f s'

  abbrev pub ◌>>◌ : Action S A → Action S B → Action S B
  m >> n = m >>= λ _. n

  continue-ok :
      (r : Outcome A) (f : A → Action S B) (s : S) {b : B} {s' : S}
      → continue r f s ≡ (ok b, s')
      → (a : A) × (r ≡ ok a) × (f a s ≡ (ok b, s'))
  continue-ok (ok a) f s h = (a, refl, h)
  continue-ok (err e) f s h = cc
  continue-ok panic f s h = cc

  -- A chain that returns has a first part that returned.
  pub bind-ok :
      (m : Action S A) (f : A → Action S B) (s : S) {b : B} {s' : S}
      → (m >>= f) s ≡ (ok b, s')
      → (a : A) × ((m s).0 ≡ ok a) × (f a (m s).1 ≡ (ok b, s'))
  unfolding ◌>>=◌
  bind-ok m f s h = continue-ok (m s).0 f (m s).1 h

-- for _, x := range xs { body }, left at the first error.
module _ {ℓ} {S A : Type ℓ} where
  unfoldable pub each : (A → Action S (Unit {ℓ})) → List A → Action S (Unit {ℓ})
  unfolding ◌>>=◌
  each body [] = pure tt
  each body (x ∷ xs) = body x >> each body xs

-- Invariants: `I` holds after a return, `E` after an error, given that `I` held before.
abbrev pub After {ℓ} : {S A : Type ℓ} → (S → Type ℓ) → (S → Type ℓ) → Outcome A → S → Type ℓ
After I E (ok a) s = I s
After I E (err e) s = E s
After I E panic s = Unit

pub record Keeps {ℓ} {S A : Type ℓ} (I E : S → Type ℓ) (m : Action S A) : Type ℓ where
  pub at : (s : S) → I s → After I E (m s).0 (m s).1

module _ {ℓ} {S A B : Type ℓ} {I E : S → Type ℓ} where
  continue-Keeps :
      (r : Outcome A) (f : A → Action S B) (s : S)
      → After I E r s
      → ((a : A) → Keeps I E (f a))
      → After I E (continue r f s).0 (continue r f s).1
  continue-Keeps (ok a) f s h k = (k a).at s h
  continue-Keeps (err e) f s h k = h
  continue-Keeps panic f s h k = h

  pub bind-Keeps :
      (m : Action S A) (f : A → Action S B)
      → Keeps I E m
      → ((a : A) → Keeps I E (f a))
      → Keeps I E (m >>= f)
  unfolding ◌>>=◌
  bind-Keeps m f km kf = record {
    at = λ s h. let (r, s') = m s in continue-Keeps r f s' (km.at s h) kf;
  }

module _ {ℓ} {S A : Type ℓ} {I E : S → Type ℓ} where
  pub pure-Keeps : (a : A) → Keeps I E (pure {S = S} a)
  unfolding pure
  pure-Keeps a = record { at = λ s h. h }

-- From `P` before to `Q` after a return.
pub record Leads {ℓ} {S A : Type ℓ} (P Q : S → Type ℓ) (m : Action S A) : Type ℓ where
  pub at : (s : S) → P s → After Q (λ _. Unit) (m s).0 (m s).1

module _ {ℓ} {S A B : Type ℓ} {Q R : S → Type ℓ} where
  continue-Leads :
      (r : Outcome A) (f : A → Action S B) (s : S)
      → After Q (λ _. Unit) r s
      → ((a : A) → Leads Q R (f a))
      → After R (λ _. Unit) (continue r f s).0 (continue r f s).1
  continue-Leads (ok a) f s h k = (k a).at s h
  continue-Leads (err e) f s h k = tt
  continue-Leads panic f s h k = tt

module _ {ℓ} {S A B : Type ℓ} {P Q R : S → Type ℓ} where
  pub bind-Leads :
      (m : Action S A) (f : A → Action S B)
      → Leads P Q m
      → ((a : A) → Leads Q R (f a))
      → Leads P R (m >>= f)
  unfolding ◌>>=◌
  bind-Leads m f km kf = record {
    at = λ s h. let (r, s') = m s in continue-Leads r f s' (km.at s h) kf;
  }
