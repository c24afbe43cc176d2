-- ===== src/Task/Process/Strings.antt =====
-- pkg/exec/util/jinja.go: strings that a second rendering leaves alone.
use sophons.Base.{
  ◌≡◌, ◌≢◌, ◌⊎◌, inl, inr, refl, sym, ap, ◌∙◌, String, str_eq, if◌then◌else◌, not, Bool, true,
  false, Option, some, none, List, [], ◌∷◌, ◌++◌, eq_iff, arith,
}
use sophons.Base.Text.{codes}
use sophons.Base.Action.{Outcome, ok, err, panic, and_then, and_then-ok, ok-injective}
use sophons.Variables.{
  Any, Items, null, boolean, integer, float, text, strings, list, object, Variables,
}
use sophons.Task.{Jinja}
use sophons.Task.Template.{
  has_braces, string_items, from_value, render_field, render_slice, render_to_slice,
}
use sophons.Task.Process.{Processing, set, next_string, render_in_place}

abbrev pub Every : (String → Type 0) → List String → Type 0
Every P [] = Unit
Every P (s ∷ l) = P s × Every P l

Every-map :
    {P Q : String → Type 0} → ((s : String) → P s → Q s) → (l : List String) → Every P l → Every Q l
Every-map f [] e = tt
Every-map f (s ∷ l) e = (f s e.0, Every-map f l e.1)

pub Every-append :
    (P : String → Type 0) (l m : List String) → Every P l → Every P m → Every P (l ++ m)
Every-append P [] m e f = f
Every-append P (s ∷ l) m e f = (e.0, Every-append P l m e.1 f)

some≢none : {A B : Type 0} (f : A → B) (r : Outcome A) → and_then r (λ a. ok (some (f a))) ≢ ok none
some≢none f r h = let p = and_then-ok r _ h in cc

module _ (jinja : Jinja) where
  -- No "{{" in it, and the engine gives it back.
  abbrev pub IsPlain : String → Type 0
  IsPlain s = (has_braces (codes s) ≡ false) × ((vars : Variables) → jinja.render vars s ≡ ok s)

  -- Rendered as a field, and as an element of a slice, it stays what it is.
  abbrev pub IsFinal : String → Type 0
  IsFinal s = (vars : Variables) → render_field jinja vars s ≡ ok s

  abbrev pub IsSingle : String → Type 0
  IsSingle s = (vars : Variables) → render_to_slice jinja vars s ≡ ok (some (s ∷ []))

  -- With these variables, the text that a string gives has no template in it.
  abbrev pub RendersPlain : Variables → String → Type 0
  RendersPlain vars s = (r : String) → jinja.render vars s ≡ ok r → IsPlain r

  -- And where its template is a list, neither have the elements.
  pub record GivesText (vars : Variables) (s : String) : Type 0 where
    pub rendered : RendersPlain vars s
    pub listed :
        (items : Items) (l : List String)
        → jinja.evaluate vars s ≡ ok (some (list items))
        → string_items items ≡ ok l
        → Every IsPlain l
    pub given : (l : List String) → jinja.evaluate vars s ≡ ok (some (strings l)) → Every IsPlain l

  IsPlain-IsFinal : (s : String) → IsPlain s → IsFinal s
  unfolding render_field
  IsPlain-IsFinal s p vars = ground (arith, eq_iff s "", p.1 vars)

  unbraced-IsSingle : (s : String) → has_braces (codes s) ≡ false → IsSingle s
  unfolding render_to_slice
  unbraced-IsSingle s h vars = ground (arith, eq_iff s "", h)

  -- A list that a string gives is one element, or elements that are plain.
  abbrev pub Settled : List String → Type 0
  Settled l = ((x : String) × (l ≡ x ∷ []) × IsSingle x) ⊎ Every IsPlain l

  pub Settled-Every : (l : List String) → Settled l → Every IsSingle l
  Settled-Every l (inl e) = rw e.1 (e.2, tt)
  Settled-Every l (inr e) = Every-map (λ s p. unbraced-IsSingle s p.0) l e

  pub Settled-IsFinal :
      (x y : String) (l : List String) → Settled (x ∷ y ∷ l) → Every IsFinal (x ∷ y ∷ l)
  Settled-IsFinal x y l (inl e) = cc
  Settled-IsFinal x y l (inr e) = Every-map IsPlain-IsFinal (x ∷ y ∷ l) e

module _ (jinja : Jinja) (vars : Variables) where
  field-IsFinal :
      (b : Bool) (s r : String)
      → RendersPlain jinja vars s
      → (if b then ok "" else jinja.render vars s) ≡ ok r
      → IsFinal jinja r
  unfolding render_field
  field-IsFinal true s r gives h = rw (sym (ok-injective h)) λ vars'. refl
  field-IsFinal false s r gives h = IsPlain-IsFinal jinja r (gives r h)

  pub render_field-IsFinal :
      (s r : String)
      → RendersPlain jinja vars s
      → render_field jinja vars s ≡ ok r
      → IsFinal jinja r
  unfolding render_field
  render_field-IsFinal s r gives h = field-IsFinal (str_eq s "") s r gives h

  rendered-Settled :
      (s : String) (l : List String)
      → GivesText jinja vars s
      → from_value none (jinja.render vars s) ≡ ok (some l)
      → Settled jinja l
  rendered-Settled s l gives e =
      let p = and_then-ok (jinja.render vars s) _ e in
      inl (p.0, cc, unbraced-IsSingle jinja p.0 (gives.rendered p.0 p.1).0)

  from_value-Settled :
      (s : String) (v : Option Any) (l : List String)
      → GivesText jinja vars s
      → jinja.evaluate vars s ≡ ok v
      → from_value v (jinja.render vars s) ≡ ok (some l)
      → Settled jinja l
  from_value-Settled s (some null) l gives h e = cc
  from_value-Settled s (some (list items)) l gives h e =
      let p = and_then-ok (string_items items) _ e in inr (gives.listed items l h (p.1 ∙ cc))
  from_value-Settled s (some (strings m)) l gives h e = inr (gives.given l (h ∙ cc))
  from_value-Settled s none l gives h e = rendered-Settled s l gives e
  from_value-Settled s (some (boolean b)) l gives h e = rendered-Settled s l gives e
  from_value-Settled s (some (integer i)) l gives h e = rendered-Settled s l gives e
  from_value-Settled s (some (float d)) l gives h e = rendered-Settled s l gives e
  from_value-Settled s (some (text t)) l gives h e = rendered-Settled s l gives e
  from_value-Settled s (some (object o)) l gives h e = rendered-Settled s l gives e

  slice-Settled :
      (empty braced : Bool) (s : String) (l : List String)
      → GivesText jinja vars s
      → has_braces (codes s) ≡ braced
      → (if empty
          then ok (some ("" ∷ []))
          else if not braced
          then ok (some (s ∷ []))
          else and_then (jinja.evaluate vars s) λ v. from_value v (jinja.render vars s))
        ≡ ok (some l)
      → Settled jinja l
  unfolding has_braces
  slice-Settled true braced s l gives b h = inl ("", cc, unbraced-IsSingle jinja "" refl)
  slice-Settled false false s l gives b h = inl (s, cc, unbraced-IsSingle jinja s b)
  slice-Settled false true s l gives b h =
      let p = and_then-ok (jinja.evaluate vars s) _ h in from_value-Settled s p.0 l gives p.1 p.2

  pub render_to_slice-Settled :
      (s : String) (l : List String)
      → GivesText jinja vars s
      → render_to_slice jinja vars s ≡ ok (some l)
      → Settled jinja l
  unfolding render_to_slice
  render_to_slice-Settled s l gives h =
      slice-Settled (str_eq s "") (has_braces (codes s)) s l gives refl h

  from_value-some :
      (s : String) (v : Option Any) (r : Outcome String)
      → jinja.evaluate vars s ≢ ok (some null)
      → jinja.evaluate vars s ≡ ok v
      → from_value v r ≢ ok none
  from_value-some s (some null) r not_null h e = not_null h
  from_value-some s (some (list items)) r not_null h e = some≢none _ (string_items items) e
  from_value-some s (some (strings m)) r not_null h e = cc
  from_value-some s none r not_null h e = some≢none _ r e
  from_value-some s (some (boolean b)) r not_null h e = some≢none _ r e
  from_value-some s (some (integer i)) r not_null h e = some≢none _ r e
  from_value-some s (some (float d)) r not_null h e = some≢none _ r e
  from_value-some s (some (text t)) r not_null h e = some≢none _ r e
  from_value-some s (some (object o)) r not_null h e = some≢none _ r e

  slice-some :
      (empty braced : Bool) (s : String)
      → jinja.evaluate vars s ≢ ok (some null)
      → (if empty
          then ok (some ("" ∷ []))
          else if not braced
          then ok (some (s ∷ []))
          else and_then (jinja.evaluate vars s) λ v. from_value v (jinja.render vars s))
        ≢ ok none
  slice-some true braced s not_null h = cc
  slice-some false false s not_null h = cc
  slice-some false true s not_null h =
      let p = and_then-ok (jinja.evaluate vars s) _ h in
      from_value-some s p.0 (jinja.render vars s) not_null p.1 p.2

  pub render_to_slice-some :
      (s : String) → jinja.evaluate vars s ≢ ok (some null) → render_to_slice jinja vars s ≢ ok none
  unfolding render_to_slice
  render_to_slice-some s not_null h = slice-some (str_eq s "") (has_braces (codes s)) s not_null h

  part-Every :
      (part : Option (List String)) (more : Outcome (List String)) (l : List String)
      → ((m : List String) → part ≡ some m → Settled jinja m)
      → ((m : List String) → more ≡ ok m → Every (IsSingle jinja) m)
      → (elim part [ none ↦ more | some m ↦ and_then more (λ m'. ok (m ++ m')) ]) ≡ ok l
      → Every (IsSingle jinja) l
  part-Every none more l settled rest h = rest l h
  part-Every (some m) more l settled rest h =
      let p = and_then-ok more _ h in
      rw (sym (ok-injective p.2))
        (Every-append _ m p.0 (Settled-Every jinja m (settled m refl)) (rest p.0 p.1))

  pub render_slice-Every :
      (l r : List String)
      → Every (GivesText jinja vars) l
      → render_slice jinja vars l ≡ ok r
      → Every (IsSingle jinja) r
  unfolding render_slice
  render_slice-Every [] r gives h = rw (sym (ok-injective h)) tt
  render_slice-Every (s ∷ l) r gives h =
      let p = and_then-ok (render_to_slice jinja vars s) _ h in
      part-Every p.0 (render_slice jinja vars l) r
        (λ m e. render_to_slice-Settled s m gives.0 (p.1 ∙ ap ok e))
        (λ m e. render_slice-Every l m gives.1 e) p.2

module _ (jinja : Jinja) (vars : Variables) where
  pub render_slice-same :
      (l : List String) → Every (IsSingle jinja) l → render_slice jinja vars l ≡ ok l
  unfolding render_slice
  render_slice-same [] e = refl
  render_slice-same (s ∷ l) e = rw (e.0 vars) rw (render_slice-same l e.1) refl

  pub render_in_place-same :
      (l : List String) → Every (IsFinal jinja) l → render_in_place jinja vars l ≡ (ok tt, l)
  unfolding render_in_place
  render_in_place-same [] e = refl
  render_in_place-same (s ∷ l) e = rw (e.0 vars) rw (render_in_place-same l e.1) refl

  next_string-Every :
      (P : String → Type 0) (r : Processing String) (l : List String)
      (more : Processing (List String))
      → (r.0 ≡ ok tt → P r.1)
      → (more.0 ≡ ok tt → Every P more.1)
      → (next_string r l more).0 ≡ ok tt
      → Every P (next_string r l more).1
  next_string-Every P (ok done, s) l more first rest h = (first refl, rest h)
  next_string-Every P (err e, s) l more first rest h = cc
  next_string-Every P (panic, s) l more first rest h = cc

-- Where a place is set, it holds what its new value says.
pub set-ok :
    {R A : Type 0} (P : A → Type 0) (r : Outcome R) (place : R → A) (old : A)
    → ((x : R) → r ≡ ok x → P (place x))
    → (set r place old).0 ≡ ok tt
    → P (set r place old).1
set-ok P (ok x) place old f h = f x refl
set-ok P (err e) place old f h = cc
set-ok P panic place old f h = cc

pub render_in_place-Every :
    (jinja : Jinja) (vars : Variables) (l : List String)
    → Every (RendersPlain jinja vars) l
    → (render_in_place jinja vars l).0 ≡ ok tt
    → Every (IsFinal jinja) (render_in_place jinja vars l).1
unfolding render_in_place
render_in_place-Every jinja vars [] gives h = tt
render_in_place-Every jinja vars (s ∷ l) gives h =
    next_string-Every jinja vars (IsFinal jinja) _ l (render_in_place jinja vars l)
      (set-ok (IsFinal jinja) (render_field jinja vars s) (λ r. r) s
        (λ r e. render_field-IsFinal jinja vars s r gives.0 e))
      (render_in_place-Every jinja vars l gives.1) h
