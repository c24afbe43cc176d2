-- ===== src/Result/Inversion.antt =====
-- What a chain that returned has read.
use sophons.Base.{String, ◌≡◌, refl}
use sophons.Base.Action.{
  Outcome, ok, err, panic, Action, continue, err≢ok, panic≢ok, wrap, wrapping, ◌>>=◌,
}
use sophons.Result.{State, set_extra, query, checked, failing}

unwrapped : {A : Type 0} (text : String) (r : Outcome A) (a : A) → wrap text r ≡ ok a → r ≡ ok a
unwrapped text (ok a') a h = h
unwrapped text (err e) a h = absurd (err≢ok h)
unwrapped text panic a h = absurd (panic≢ok h)

module _ {W R A B : Type 0} (k : A → Action (State W R) B) (s : State W R) {b : B}
    {s' : State W R} where
  after_read :
      (r : Outcome A)
      → continue (failing r s).0 k (failing r s).1 ≡ (ok b, s')
      → (a : A) × (r ≡ ok a) × (k a s ≡ (ok b, s'))
  after_read (ok a) h = (a, refl, h)
  after_read (err e) h = absurd (err≢ok (λ i. (h i).0))
  after_read panic h = absurd (panic≢ok (λ i. (h i).0))

  pub query-ok :
      (g : W → Outcome A)
      → (checked (query g) >>= k) s ≡ (ok b, s')
      → (a : A) × (g s.world ≡ ok a) × (k a s ≡ (ok b, s'))
  unfolding ◌>>=◌ checked
  query-ok g h = after_read (g s.world) h

  pub wrapping-query-ok :
      (text : String) (g : W → Outcome A)
      → (checked (wrapping text (query g)) >>= k) s ≡ (ok b, s')
      → (a : A) × (g s.world ≡ ok a) × (k a s ≡ (ok b, s'))
  unfolding ◌>>=◌ checked
  wrapping-query-ok text g h =
      let (a, e, rest) = after_read (wrap text (g s.world)) h in
      (a, unwrapped text (g s.world) a e, rest)

module _ {W R A : Type 0} (k : Unit {0} → Action (State W R) A) (s : State W R) where
  pub set_extra-step : (f : R → R) → (set_extra f >>= k) s ≡ k tt (record s { extra = f s.extra })
  unfolding ◌>>=◌ set_extra
  set_extra-step f = refl
