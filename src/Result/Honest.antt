-- ===== src/Result/Honest.antt =====
-- A task that does not report a change has not changed the machine. `flag` is the local variable
-- `changed` of those methods that keep one.
use sophons.Base.{String, ◌≡◌, refl, ◌⊎◌, inl, inr, Bool, true, false, List, [], ◌∷◌, if◌then◌else◌}
use sophons.Base.Action.{
  Error, Outcome, ok, err, panic, Action, Keeps, After, continue, bind-Keeps, wrap, wrapping, raise,
  pure, each, ◌>>=◌, ◌>>◌,
}
use sophons.Result.{
  State, mark_changed, mark_skipped, set_extra, fail, query, observe, call, checked, failing,
}

abbrev pub Any : {S : Type 0} → S → Type 0
Any s = Unit

module _ {W R : Type 0} (flag : R → Bool) (start : W) where
  -- Where the machine differs from the one at the start, a change is noted.
  abbrev pub Noted : State W R → Type 0
  Noted s = (s.world ≡ start) ⊎ (s.common.changed ≡ true) ⊎ (flag s.extra ≡ true)

  abbrev pub IsFlagged : State W R → Type 0
  IsFlagged s = flag s.extra ≡ true

  abbrev pub IsHonest : {A : Type 0} → Action (State W R) A → Type 0
  IsHonest m = Keeps Noted Any m

  -- It notes a change whatever happened before.
  pub record Notes {A : Type 0} (m : Action (State W R) A) : Type 0 where
    pub at : (s : State W R) → After Noted Any (m s).0 (m s).1

  -- It leaves the variable `changed` as it is, if that is set.
  abbrev pub IsFlagKeeping : {A : Type 0} → Action (State W R) A → Type 0
  IsFlagKeeping m = Keeps IsFlagged Any m

  pub mark_changed-Notes : Notes mark_changed
  unfolding mark_changed
  mark_changed-Notes = record { at = λ s. inr (inl refl) }

  pub set_extra-Notes : (f : R → R) → ((r : R) → flag (f r) ≡ true) → Notes (set_extra f)
  unfolding set_extra
  set_extra-Notes f k = record { at = λ s. inr (inr (k s.extra)) }

  pub mark_skipped-IsHonest : IsHonest mark_skipped
  unfolding mark_skipped
  mark_skipped-IsHonest = record { at = λ s h. h }

  keep :
      (f : R → R)
      → ((r : R) → flag r ≡ true → flag (f r) ≡ true)
      → (s : State W R) → Noted s
      → Noted (record s { extra = f s.extra })
  keep f k s (inl e) = inl e
  keep f k s (inr (inl e)) = inr (inl e)
  keep f k s (inr (inr e)) = inr (inr (k s.extra e))

  pub set_extra-IsHonest :
      (f : R → R) → ((r : R) → flag r ≡ true → flag (f r) ≡ true) → IsHonest (set_extra f)
  unfolding set_extra
  set_extra-IsHonest f k = record { at = λ s h. keep f k s h }

  module _ {A : Type 0} where
    pub Notes-IsHonest : (m : Action (State W R) A) → Notes m → IsHonest m
    Notes-IsHonest m k = record { at = λ s h. k.at s }

    at_error : (P : State W R → Type 0) (r : Outcome A) (s : State W R) → P s → After P Any r s
    at_error P (ok a) s h = h
    at_error P (err e) s h = tt
    at_error P panic s h = tt

    pub fail-IsHonest : (e : Error) → IsHonest (fail {A = A} e)
    unfolding fail
    fail-IsHonest e = record { at = λ s h. tt }

    pub raise-IsHonest : (e : Error) → IsHonest {A = A} (raise e)
    unfolding raise
    raise-IsHonest e = record { at = λ s h. tt }

    pub pure-IsHonest : (a : A) → IsHonest (pure a)
    unfolding pure
    pure-IsHonest a = record { at = λ s h. h }

    pub query-IsHonest : (f : W → Outcome A) → IsHonest (query f)
    unfolding query
    query-IsHonest f = record { at = λ s h. at_error Noted (f s.world) s h }

    pub observe-IsHonest : (f : W → A) → IsHonest (observe f)
    unfolding observe
    observe-IsHonest f = record { at = λ s h. h }

    pub call-IsFlagKeeping : (m : Action W A) → IsFlagKeeping (call m)
    unfolding call
    call-IsFlagKeeping m = record {
      at = λ s h. let (r, w) = m s.world in at_error IsFlagged r (record s { world = w }) h;
    }

    failing_after :
        (P : State W R → Type 0) (r : Outcome A) (s : State W R)
        → After P Any r s
        → After P Any (failing r s).0 (failing r s).1
    failing_after P (ok a) s h = h
    failing_after P (err e) s h = tt
    failing_after P panic s h = tt

    wrap_after :
        (P : State W R → Type 0) (text : String) (r : Outcome A) (s : State W R)
        → After P Any r s
        → After P Any (wrap text r) s
    wrap_after P text (ok a) s h = h
    wrap_after P text (err e) s h = tt
    wrap_after P text panic s h = tt

    pub checked-IsHonest : (m : Action (State W R) A) → IsHonest m → IsHonest (checked m)
    unfolding checked
    checked-IsHonest m k = record {
      at = λ s h. let (r, s') = m s in failing_after Noted r s' (k.at s h);
    }

    pub checked-IsFlagKeeping :
        (m : Action (State W R) A) → IsFlagKeeping m → IsFlagKeeping (checked m)
    unfolding checked
    checked-IsFlagKeeping m k = record {
      at = λ s h. let (r, s') = m s in failing_after IsFlagged r s' (k.at s h);
    }

    pub wrapping-IsHonest :
        (text : String) (m : Action (State W R) A) → IsHonest m → IsHonest (wrapping text m)
    unfolding wrapping
    wrapping-IsHonest text m k = record {
      at = λ s h. let (r, s') = m s in wrap_after Noted text r s' (k.at s h);
    }

    pub wrapping-IsFlagKeeping :
        (text : String) (m : Action (State W R) A)
        → IsFlagKeeping m
        → IsFlagKeeping (wrapping text m)
    unfolding wrapping
    wrapping-IsFlagKeeping text m k = record {
      at = λ s h. let (r, s') = m s in wrap_after IsFlagged text r s' (k.at s h);
    }

    pub if-IsHonest :
        (b : Bool) (m n : Action (State W R) A)
        → IsHonest m
        → IsHonest n
        → IsHonest (if b then m else n)
    if-IsHonest true m n km kn = km
    if-IsHonest false m n km kn = kn

  module _ {A : Type 0} where
    pub fail-Notes : (e : Error) → Notes (fail {A = A} e)
    unfolding fail
    fail-Notes e = record { at = λ s. tt }

    pub if-Notes :
        (b : Bool) (m n : Action (State W R) A) → Notes m → Notes n → Notes (if b then m else n)
    if-Notes true m n km kn = km
    if-Notes false m n km kn = kn

  module _ {A B : Type 0} where
    continue-Notes_all :
        (r : Outcome A) (f : A → Action (State W R) B) (s : State W R)
        → ((a : A) → Notes (f a))
        → After Noted Any (continue r f s).0 (continue r f s).1
    continue-Notes_all (ok a) f s k = (k a).at s
    continue-Notes_all (err e) f s k = tt
    continue-Notes_all panic f s k = tt

    pub bind-Notes :
        (m : Action (State W R) A) (f : A → Action (State W R) B)
        → ((a : A) → Notes (f a))
        → Notes (m >>= f)
    unfolding ◌>>=◌
    bind-Notes m f k = record { at = λ s. let (r, s') = m s in continue-Notes_all r f s' k }

  module _ {A B : Type 0} where
    continue-Notes :
        (r : Outcome A) (n : Action (State W R) B) (s : State W R)
        → Notes n
        → After Noted Any (continue r (λ _. n) s).0 (continue r (λ _. n) s).1
    continue-Notes (ok a) n s k = k.at s
    continue-Notes (err e) n s k = tt
    continue-Notes panic n s k = tt

    -- A change that is noted afterwards.
    pub then-Notes :
        (m : Action (State W R) A) (n : Action (State W R) B) → Notes n → Notes (m >> n)
    unfolding ◌>>=◌
    then-Notes m n k = record { at = λ s. let (r, s') = m s in continue-Notes r n s' k }

  module _ {A : Type 0} where
    noted : (r : Outcome A) (s : State W R) → After IsFlagged Any r s → After Noted Any r s
    noted (ok a) s h = inr (inr h)
    noted (err e) s h = tt
    noted panic s h = tt

    -- A change that is noted before.
    pub flag_first :
        (f : R → R) (m : Action (State W R) A)
        → ((r : R) → flag (f r) ≡ true)
        → IsFlagKeeping m
        → IsHonest (set_extra f >> m)
    unfolding ◌>>=◌ set_extra
    flag_first f m raises k = record {
      at = λ s h.
          let s' : State W R = record s { extra = f s.extra } in
          noted (m s').0 (m s').1 (k.at s' (raises s.extra));
    }

  module _ {A : Type 0} where
    pub each-IsHonest :
        (body : A → Action (State W R) (Unit {0})) (xs : List A)
        → ((a : A) → IsHonest (body a))
        → IsHonest (each body xs)
    unfolding each
    each-IsHonest body [] k = pure-IsHonest tt
    each-IsHonest body (x ∷ xs) k = bind-Keeps _ _ (k x) (λ _. each-IsHonest body xs k)

-- To be used with the flag and the machine at the start.
pub ruleset honest_rules = (
  mark_changed-Notes, mark_skipped-IsHonest, fail-IsHonest, raise-IsHonest, pure-IsHonest,
  query-IsHonest, observe-IsHonest, call-IsFlagKeeping, checked-IsHonest, checked-IsFlagKeeping,
  wrapping-IsHonest, wrapping-IsFlagKeeping, if-IsHonest, then-Notes, bind-Keeps,
)
