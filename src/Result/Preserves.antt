-- ===== src/Result/Preserves.antt =====
-- A property of the machine that holds through an `Apply` method, as long as it does not fail.
use sophons.Base.{String, Bool, true, false, if◌then◌else◌}
use sophons.Base.Action.{
  Error, Outcome, ok, err, panic, Action, After, Keeps, Leads, bind-Keeps, wrap, wrapping, raise,
  pure, read,
}
use sophons.Result.{State, mark_changed, set_extra, query, call, checked, failing}

abbrev pub Pass : {S : Type 0} → S → Type 0
Pass s = Unit

module _ {S A : Type 0} (P : S → Type 0) where
  any_outcome : (r : Outcome A) (s : S) → P s → After P Pass r s
  any_outcome (ok a) s h = h
  any_outcome (err e) s h = tt
  any_outcome panic s h = tt

  wrap-after :
      (text : String) (r : Outcome A) (s : S) → After P Pass r s → After P Pass (wrap text r) s
  wrap-after text (ok a) s h = h
  wrap-after text (err e) s h = tt
  wrap-after text panic s h = tt

  pub wrapping-Keeps :
      (text : String) (m : Action S A) → Keeps P Pass m → Keeps P Pass (wrapping text m)
  unfolding wrapping
  wrapping-Keeps text m k = record {
    at = λ s h. let (r, s') = m s in wrap-after text r s' (k.at s h);
  }

  pub read-Keeps : (f : S → Outcome A) → Keeps P Pass (read f)
  unfolding read
  read-Keeps f = record { at = λ s h. any_outcome (f s) s h }

  pub raise-Keeps : (e : Error) → Keeps P Pass (raise {S = S} {A = A} e)
  unfolding raise
  raise-Keeps e = record { at = λ s h. tt }

  pub pure-Keeps : (a : A) → Keeps P Pass (pure {S = S} a)
  unfolding pure
  pure-Keeps a = record { at = λ s h. h }

  pub if-Keeps :
      (b : Bool) (m n : Action S A)
      → Keeps P Pass m
      → Keeps P Pass n
      → Keeps P Pass (if b then m else n)
  if-Keeps true m n km kn = km
  if-Keeps false m n km kn = kn

  pub Keeps-Leads : {m : Action S A} → Keeps P Pass m → Leads P P m
  Keeps-Leads k = record { at = λ s h. k.at s h }

module _ {W R : Type 0} (P : W → Type 0) where
  -- A predicate of the machine, as one of the state.
  abbrev pub On : State W R → Type 0
  On s = P s.world

  pub mark_changed-Keeps : Keeps On Pass mark_changed
  unfolding mark_changed
  mark_changed-Keeps = record { at = λ s h. h }

  pub set_extra-Keeps : (f : R → R) → Keeps On Pass (set_extra f)
  unfolding set_extra
  set_extra-Keeps f = record { at = λ s h. h }

module _ {W R A : Type 0} (P : W → Type 0) where
  pub query-Keeps : (f : W → Outcome A) → Keeps (On {R = R} P) Pass (query f)
  unfolding query
  query-Keeps f = record { at = λ s h. any_outcome (On P) (f s.world) s h }

  called :
      (r : Outcome A) (w : W) (s : State W R)
      → After P Pass r w
      → After (On P) Pass r (record s { world = w })
  called (ok a) w s h = h
  called (err e) w s h = tt
  called panic w s h = tt

  pub call-Keeps : (m : Action W A) → Keeps P Pass m → Keeps (On {R = R} P) Pass (call m)
  unfolding call
  call-Keeps m k = record { at = λ s h. let (r, w) = m s.world in called r w s (k.at s.world h) }

  failed :
      (r : Outcome A) (s : State W R)
      → After (On P) Pass r s
      → After (On P) Pass (failing r s).0 (failing r s).1
  failed (ok a) s h = h
  failed (err e) s h = tt
  failed panic s h = tt

  pub checked-Keeps :
      (m : Action (State W R) A) → Keeps (On P) Pass m → Keeps (On P) Pass (checked m)
  unfolding checked
  checked-Keeps m k = record { at = λ s h. let (r, s') = m s in failed r s' (k.at s h) }

module _ {W R A : Type 0} (P Q : W → Type 0) where
  -- A call from one property to another.
  pub call-Leads :
      (text : String) (m : Action W A)
      → ((w : W) → P w → After Q Pass (m w).0 (m w).1)
      → Leads (On {R = R} P) (On Q) (checked (wrapping text (call m)))
  unfolding checked wrapping
  call-Leads text m k = record {
    at = λ s h.
        let (r, w) = m s.world in
        let s' = record s { world = w } in
        failed Q (wrap text r) s' (wrap-after (On Q) text r s' (called Q r w s (k s.world h)));
  }

-- To be used with the predicate.
pub ruleset keeps_rules = (
  mark_changed-Keeps, set_extra-Keeps, read-Keeps, raise-Keeps, pure-Keeps, query-Keeps,
  checked-Keeps, if-Keeps, bind-Keeps, wrapping-Keeps, call-Keeps,
)
