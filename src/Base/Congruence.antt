-- ===== src/Base/Congruence.antt =====
-- When two chains of calls do the same.
use mathlib.Core.Path.{◌≡◌, refl}
use mathlib.Core.List.{List, [], ◌∷◌}
use Prim.Native.String.{String}
use sophons.Base.Text.{All}
use sophons.Base.Action.{
  Outcome, ok, err, panic, Action, continue, wrapping, each, read, ◌>>=◌, ◌>>◌,
}

-- Two actions that do the same in a state.
pub record SameAt {S A : Type 0} (m n : Action S A) (s : S) : Type 0 where
  pub same : m s ≡ n s

module _ {S A B : Type 0} where
  continue-cong :
      (r : Outcome A) (f g : A → Action S B) (s : S)
      → ((a : A) → r ≡ ok a → f a s ≡ g a s)
      → continue r f s ≡ continue r g s
  continue-cong (ok a) f g s h = h a refl
  continue-cong (err e) f g s h = refl
  continue-cong panic f g s h = refl

  -- What follows a first part is alike for what that part returned.
  pub bind-cong :
      (m : Action S A) (f g : A → Action S B) (s : S)
      → ((a : A) (s' : S) → (m s).0 ≡ ok a → SameAt (f a) (g a) s')
      → SameAt (m >>= f) (m >>= g) s
  unfolding ◌>>=◌
  bind-cong m f g s h = record {
    same = continue-cong (m s).0 f g (m s).1 (λ a e. (h a (m s).1 e).same);
  }

  pub then-cong :
      (m n : Action S A) (f : A → Action S B) (s : S) → SameAt m n s → SameAt (m >>= f) (n >>= f) s
  unfolding ◌>>=◌
  then-cong m n f s h = record { same = rw h.same refl }

module _ {S A A' B : Type 0} where
  -- Two reads that succeed, and whose values are not used.
  pub read-cong :
      (g : S → Outcome A) (g' : S → Outcome A') (m n : Action S B) (s : S) (a : A) (a' : A')
      → g s ≡ ok a
      → g' s ≡ ok a'
      → SameAt m n s
      → SameAt (read g >> m) (read g' >> n) s
  unfolding ◌>>=◌
  read-cong g g' m n s a a' h h' k = record { same = rw (h, h') k.same }

module _ {S A : Type 0} where
  pub wrapping-cong :
      (text : String) (m n : Action S A) (s : S)
      → SameAt m n s
      → SameAt (wrapping text m) (wrapping text n) s
  unfolding wrapping
  wrapping-cong text m n s h = record { same = rw h.same refl }

  each_same :
      (f g : A → Action S (Unit {0})) (xs : List A) (s : S)
      → All (λ x. (s' : S) → SameAt (f x) (g x) s') xs
      → each f xs s ≡ each g xs s
  unfolding each ◌>>=◌
  each_same f g [] s h = refl
  each_same f g (x ∷ xs) s (h, hs) =
      rw (h s).same (continue-cong (g x s).0 _ _ (g x s).1 (λ a e. each_same f g xs (g x s).1 hs))

  pub each-cong :
      (f g : A → Action S (Unit {0})) (xs : List A) (s : S)
      → All (λ x. (s' : S) → SameAt (f x) (g x) s') xs
      → SameAt (each f xs) (each g xs) s
  each-cong f g xs s h = record { same = each_same f g xs s h }
