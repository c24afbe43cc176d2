-- ===== src/Result/Consistent.antt =====
-- An `Apply` method returns an error exactly when its result says that the task failed.
use sophons.Base.{◌∙◌, String, List, [], ◌∷◌, ◌≡◌, refl, Bool, true, false, if◌then◌else◌}
use sophons.Base.Action.{
  wrap, wrapping, raise, Error, Outcome, ok, err, panic, Action, Keeps, After, bind-Keeps, ◌>>=◌,
  ◌>>◌, pure, each,
}
use sophons.Result.{
  CommonResult, set_common, empty_result, run, observe, perform, CommonResult, State, mark_changed,
  mark_skipped, set_common, set_extra, fail, query, call, checked, failing,
}

abbrev pub Fine : {W R : Type 0} → State W R → Type 0
Fine s = s.common.failed ≡ false

abbrev pub Marked : {W R : Type 0} → State W R → Type 0
Marked s = s.common.failed ≡ true

-- From a result that has not failed: a return leaves it so, and an error marks it.
abbrev pub IsConsistent : {W R A : Type 0} → Action (State W R) A → Type 0
IsConsistent m = Keeps Fine Marked m

-- The same for a part whose caller marks the failure.
abbrev pub IsQuiet : {W R A : Type 0} → Action (State W R) A → Type 0
IsQuiet m = Keeps Fine Fine m

module _ {W R : Type 0} where
  pub mark_changed-IsConsistent : IsConsistent (mark_changed {W = W} {R = R})
  unfolding mark_changed
  mark_changed-IsConsistent = record { at = λ s h. h }

  pub mark_skipped-IsConsistent : IsConsistent (mark_skipped {W = W} {R = R})
  unfolding mark_skipped
  mark_skipped-IsConsistent = record { at = λ s h. h }

  pub set_extra-IsQuiet : (f : R → R) → IsQuiet (set_extra {W = W} f)
  unfolding set_extra
  set_extra-IsQuiet f = record { at = λ s h. h }

  pub set_common-IsConsistent :
      (f : CommonResult → CommonResult)
      → ((c : CommonResult) → (f c).failed ≡ c.failed)
      → IsConsistent (set_common {W = W} {R = R} f)
  unfolding set_common
  set_common-IsConsistent f k = record { at = λ s h. k s.common ∙ h }

  pub set_extra-IsConsistent : (f : R → R) → IsConsistent (set_extra {W = W} f)
  unfolding set_extra
  set_extra-IsConsistent f = record { at = λ s h. h }

module _ {W R A : Type 0} where
  pub fail-IsConsistent : (e : Error) → IsConsistent (fail {W = W} {R = R} {A = A} e)
  unfolding fail
  fail-IsConsistent e = record { at = λ s h. refl }

  pub pure-IsConsistent : (a : A) → IsConsistent {W = W} {R = R} (pure a)
  unfolding pure
  pure-IsConsistent a = record { at = λ s h. h }

  pub pure-IsQuiet : (a : A) → IsQuiet {W = W} {R = R} (pure a)
  unfolding pure
  pure-IsQuiet a = record { at = λ s h. h }

  quiet : (r : Outcome A) (s : State W R) → Fine s → After Fine Fine r s
  quiet (ok a) s h = h
  quiet (err e) s h = h
  quiet panic s h = tt

  pub query-IsQuiet : (f : W → Outcome A) → IsQuiet (query {W = W} {R = R} f)
  unfolding query
  query-IsQuiet f = record { at = λ s h. quiet (f s.world) s h }

  pub observe-IsConsistent : (f : W → A) → IsConsistent (observe {W = W} {R = R} f)
  unfolding observe
  observe-IsConsistent f = record { at = λ s h. h }

  pub perform-IsConsistent : (m : W → A × W) → IsConsistent (perform {W = W} {R = R} m)
  unfolding perform
  perform-IsConsistent m = record { at = λ s h. h }

  pub observe-IsQuiet : (f : W → A) → IsQuiet (observe {W = W} {R = R} f)
  unfolding observe
  observe-IsQuiet f = record { at = λ s h. h }

  pub call-IsQuiet : (m : Action W A) → IsQuiet (call {W = W} {R = R} m)
  unfolding call
  call-IsQuiet m = record {
    at = λ s h. let (r, w) = m s.world in quiet r (record s { world = w }) h;
  }

  failing-IsConsistent :
      (r : Outcome A) (s : State W R)
      → After Fine Fine r s
      → After Fine Marked (failing r s).0 (failing r s).1
  failing-IsConsistent (ok a) s h = h
  failing-IsConsistent (err e) s h = refl
  failing-IsConsistent panic s h = tt

  pub checked-IsConsistent : (m : Action (State W R) A) → IsQuiet m → IsConsistent (checked m)
  unfolding checked
  checked-IsConsistent m k = record {
    at = λ s h. let (r, s') = m s in failing-IsConsistent r s' (k.at s h);
  }

  pub if-IsConsistent :
      (b : Bool) (m n : Action (State W R) A)
      → IsConsistent m
      → IsConsistent n
      → IsConsistent (if b then m else n)
  if-IsConsistent true m n km kn = km
  if-IsConsistent false m n km kn = kn

  pub if-IsQuiet :
      (b : Bool) (m n : Action (State W R) A) → IsQuiet m → IsQuiet n → IsQuiet (if b then m else n)
  if-IsQuiet true m n km kn = km
  if-IsQuiet false m n km kn = kn

module _ {W R A : Type 0} where
  wrap-quiet :
      (text : String) (r : Outcome A) (s : State W R)
      → After Fine Fine r s
      → After Fine Fine (wrap text r) s
  wrap-quiet text (ok a) s h = h
  wrap-quiet text (err e) s h = h
  wrap-quiet text panic s h = h

  pub wrapping-IsQuiet :
      (text : String) (m : Action (State W R) A) → IsQuiet m → IsQuiet (wrapping text m)
  unfolding wrapping
  wrapping-IsQuiet text m k = record {
    at = λ s h. let (r, s') = m s in wrap-quiet text r s' (k.at s h);
  }

  pub raise-IsQuiet : (e : Error) → IsQuiet {W = W} {R = R} {A = A} (raise e)
  unfolding raise
  raise-IsQuiet e = record { at = λ s h. h }

module _ {W R A : Type 0} where
  pub each-IsQuiet :
      (body : A → Action (State W R) (Unit {0})) (xs : List A)
      → ((a : A) → IsQuiet (body a))
      → IsQuiet (each body xs)
  unfolding each
  each-IsQuiet body [] k = pure-IsQuiet tt
  each-IsQuiet body (x ∷ xs) k = bind-Keeps _ _ (k x) (λ _. each-IsQuiet body xs k)

pub ruleset consistent_rules = (
  mark_changed-IsConsistent, mark_skipped-IsConsistent, set_extra-IsConsistent, fail-IsConsistent,
  pure-IsConsistent, pure-IsQuiet, query-IsQuiet, observe-IsConsistent, perform-IsConsistent,
  observe-IsQuiet, call-IsQuiet, checked-IsConsistent, if-IsConsistent, if-IsQuiet, bind-Keeps,
  wrapping-IsQuiet, raise-IsQuiet, set_extra-IsQuiet,
)

-- What a task returns agrees with what its result says.
abbrev pub Reports : {W R : Type 0} → Outcome (Unit {0}) × State W R → Type 0
Reports (ok u, s) = s.common.failed ≡ false
Reports (err e, s) = s.common.failed ≡ true
Reports (panic, s) = Unit

module _ {W R : Type 0} where
  reports : (r : Outcome (Unit {0})) (s : State W R) → After Fine Marked r s → Reports (r, s)
  reports (ok u) s h = h
  reports (err e) s h = h
  reports panic s h = tt

  pub run-Reports :
      (body : Action (State W R) (Unit {0})) (extra : R) (w : W)
      → IsConsistent body
      → Reports (run body extra w)
  run-Reports body extra w k =
      let s : State W R = record { world = w; common = empty_result; extra = extra } in
      reports _ _ (k.at s refl)
