-- ===== src/Task/Process/Twice.antt =====
-- pkg/exec/util/jinja.go: what ProcessJinjaTemplates does to a content that it has processed.
use sophons.Base.{◌≢◌, ◌≡◌, refl, sym, ap, String, Option, some, none, List, [], ◌∷◌}
use sophons.Base.Action.{ok, err, panic}
use sophons.Variables.{null, Variables}
use sophons.Task.{Jinja}
use sophons.Task.Template.{render_field, render_slice, render_to_slice}
use sophons.Task.Process.{
  Value, string, strings, others, scalar, struct, nil, pointer, Held, held_string, held_strings,
  held_others, held_scalar, held_nil, held_pointer, Field, unexported, plain, nil_interface,
  interface, Fields, end, field, Processing, next, held_rendered, process, process_fields,
  process_field, process_value, process_element, process_held,
}
use sophons.Task.Process.Strings.{
  Every, IsFinal, IsSingle, GivesText, RendersPlain, render_field-IsFinal, render_to_slice-Settled,
  render_to_slice-some, render_slice-Every, render_slice-same, render_in_place-same,
  render_in_place-Every, set-ok, Settled-Every, Settled-IsFinal,
}

module _ (jinja : Jinja) where
  -- Every string that is reached stays what it is, and no interface holds a scalar itself.
  abbrev mutual
    pub IsDone : Value → Type 0
    IsDone (struct fs) = AllDone fs
    IsDone (pointer v) = IsDone v
    IsDone v = Unit

    pub AllDone : Fields → Type 0
    AllDone end = Unit
    AllDone (field f fs) = IsDoneField f × AllDone fs

    pub IsDoneField : Field → Type 0
    IsDoneField (plain v) = IsDoneValue v
    IsDoneField (interface h) = IsDoneHeld h
    IsDoneField f = Unit

    pub IsDoneValue : Value → Type 0
    IsDoneValue (string s) = IsFinal jinja s
    IsDoneValue (strings l) = Every (IsSingle jinja) l
    IsDoneValue (struct fs) = AllDone fs
    IsDoneValue (pointer v) = IsDoneElement v
    IsDoneValue v = Unit

    pub IsDoneElement : Value → Type 0
    IsDoneElement (string s) = IsFinal jinja s
    IsDoneElement (strings l) = Every (IsSingle jinja) l
    IsDoneElement (struct fs) = AllDone fs
    IsDoneElement v = Unit

    pub IsDoneHeld : Held → Type 0
    IsDoneHeld (held_string s) = IsSingle jinja s
    IsDoneHeld (held_strings l) = Every (IsFinal jinja) l
    IsDoneHeld (held_scalar a) = ⊥
    IsDoneHeld (held_pointer v) = IsDone v
    IsDoneHeld h = Unit

module _ (jinja : Jinja) (vars : Variables) where
  mutual
    unfolding process

    process-IsDone : (v : Value) → IsDone jinja v → process jinja vars v ≡ (ok tt, v)
    process-IsDone (string s) p = refl
    process-IsDone (strings l) p = refl
    process-IsDone (others a) p = refl
    process-IsDone (scalar a) p = refl
    process-IsDone (struct fs) p = rw (process_fields-AllDone fs p) refl
    process-IsDone nil p = refl
    process-IsDone (pointer v) p = rw (process-IsDone v p) refl

    process_fields-AllDone :
        (fs : Fields) → AllDone jinja fs → process_fields jinja vars fs ≡ (ok tt, fs)
    process_fields-AllDone end p = refl
    process_fields-AllDone (field f fs) p =
        rw (process_field-IsDone f p.0) rw (process_fields-AllDone fs p.1) refl

    process_field-IsDone :
        (f : Field) → IsDoneField jinja f → process_field jinja vars f ≡ (ok tt, f)
    process_field-IsDone (unexported v) p = refl
    process_field-IsDone (plain v) p = rw (process_value-IsDone v p) refl
    process_field-IsDone nil_interface p = refl
    process_field-IsDone (interface h) p = rw (process_held-IsDone h p) refl

    process_value-IsDone :
        (v : Value) → IsDoneValue jinja v → process_value jinja vars v ≡ (ok tt, v)
    process_value-IsDone (string s) p = rw (p vars) refl
    process_value-IsDone (strings l) p = rw (render_slice-same jinja vars l p) refl
    process_value-IsDone (others a) p = refl
    process_value-IsDone (scalar a) p = refl
    process_value-IsDone (struct fs) p = rw (process_fields-AllDone fs p) refl
    process_value-IsDone nil p = refl
    process_value-IsDone (pointer v) p = rw (process_element-IsDone v p) refl

    process_element-IsDone :
        (v : Value) → IsDoneElement jinja v → process_element jinja vars v ≡ (ok tt, v)
    process_element-IsDone (string s) p = rw (p vars) refl
    process_element-IsDone (strings l) p = rw (render_slice-same jinja vars l p) refl
    process_element-IsDone (others a) p = refl
    process_element-IsDone (scalar a) p = refl
    process_element-IsDone (struct fs) p = rw (process_fields-AllDone fs p) refl
    process_element-IsDone nil p = refl
    process_element-IsDone (pointer v) p = refl

    process_held-IsDone : (h : Held) → IsDoneHeld jinja h → process_held jinja vars h ≡ (ok tt, h)
    process_held-IsDone (held_string s) p = rw (p vars) refl
    process_held-IsDone (held_strings l) p = rw (render_in_place-same jinja vars l p) refl
    process_held-IsDone (held_others a) p = refl
    process_held-IsDone (held_scalar a) p = elim p [ ]
    process_held-IsDone held_nil p = refl
    process_held-IsDone (held_pointer v) p = rw (process-IsDone v p) refl

  next-AllDone :
      (r : Processing Field) (fs : Fields) (rest : Processing Fields)
      → (r.0 ≡ ok tt → IsDoneField jinja r.1)
      → (rest.0 ≡ ok tt → AllDone jinja rest.1)
      → (next r fs rest).0 ≡ ok tt
      → AllDone jinja (next r fs rest).1
  next-AllDone (ok done, f) fs rest first later h = (first refl, later h)
  next-AllDone (err e, f) fs rest first later h = cc
  next-AllDone (panic, f) fs rest first later h = cc

-- The strings of a content that a rendering reaches give text without templates, and those that an
-- interface holds do not stand for nil.
module _ (jinja : Jinja) (vars : Variables) where
  abbrev mutual
    pub Gives : Value → Type 0
    Gives (struct fs) = AllGive fs
    Gives (pointer v) = Gives v
    Gives v = Unit

    pub AllGive : Fields → Type 0
    AllGive end = Unit
    AllGive (field f fs) = FieldGives f × AllGive fs

    pub FieldGives : Field → Type 0
    FieldGives (plain v) = ValueGives v
    FieldGives (interface h) = HeldGives h
    FieldGives f = Unit

    pub ValueGives : Value → Type 0
    ValueGives (string s) = RendersPlain jinja vars s
    ValueGives (strings l) = Every (GivesText jinja vars) l
    ValueGives (struct fs) = AllGive fs
    ValueGives (pointer v) = ElementGives v
    ValueGives v = Unit

    pub ElementGives : Value → Type 0
    ElementGives (string s) = RendersPlain jinja vars s
    ElementGives (strings l) = Every (GivesText jinja vars) l
    ElementGives (struct fs) = AllGive fs
    ElementGives v = Unit

    pub HeldGives : Held → Type 0
    HeldGives (held_string s) = GivesText jinja vars s × (jinja.evaluate vars s ≢ ok (some null))
    HeldGives (held_strings l) = Every (RendersPlain jinja vars) l
    HeldGives (held_pointer v) = Gives v
    HeldGives h = Unit

module _ (jinja : Jinja) (vars : Variables) where
  held_rendered-IsDone :
      (s : String) (part : Option (List String))
      → HeldGives jinja vars (held_string s)
      → render_to_slice jinja vars s ≡ ok part
      → IsDoneHeld jinja (held_rendered s part)
  held_rendered-IsDone s none gives h = absurd (render_to_slice-some jinja vars s gives.1 h)
  held_rendered-IsDone s (some []) gives h = tt
  held_rendered-IsDone s (some (x ∷ [])) gives h =
      (Settled-Every jinja (x ∷ []) (render_to_slice-Settled jinja vars s (x ∷ []) gives.0 h)).0
  held_rendered-IsDone s (some (x ∷ y ∷ l)) gives h =
      Settled-IsFinal jinja x y l (render_to_slice-Settled jinja vars s (x ∷ y ∷ l) gives.0 h)

  mutual
    unfolding process

    process-Done :
        (v : Value)
        → Gives jinja vars v
        → (process jinja vars v).0 ≡ ok tt
        → IsDone jinja (process jinja vars v).1
    process-Done (string s) g h = tt
    process-Done (strings l) g h = tt
    process-Done (others a) g h = tt
    process-Done (scalar a) g h = tt
    process-Done (struct fs) g h = process_fields-Done fs g h
    process-Done nil g h = tt
    process-Done (pointer v) g h = process-Done v g h

    process_fields-Done :
        (fs : Fields)
        → AllGive jinja vars fs
        → (process_fields jinja vars fs).0 ≡ ok tt
        → AllDone jinja (process_fields jinja vars fs).1
    process_fields-Done end g h = tt
    process_fields-Done (field f fs) g h =
        next-AllDone jinja vars (process_field jinja vars f) fs (process_fields jinja vars fs)
          (process_field-Done f g.0) (process_fields-Done fs g.1) h

    process_field-Done :
        (f : Field)
        → FieldGives jinja vars f
        → (process_field jinja vars f).0 ≡ ok tt
        → IsDoneField jinja (process_field jinja vars f).1
    process_field-Done (unexported v) g h = tt
    process_field-Done (plain v) g h = process_value-Done v g h
    process_field-Done nil_interface g h = tt
    process_field-Done (interface held) g h = process_held-Done held g h

    process_value-Done :
        (v : Value)
        → ValueGives jinja vars v
        → (process_value jinja vars v).0 ≡ ok tt
        → IsDoneValue jinja (process_value jinja vars v).1
    process_value-Done (string s) g h =
        set-ok (IsDoneValue jinja) (render_field jinja vars s) string (string s)
          (λ r e. render_field-IsFinal jinja vars s r g e) h
    process_value-Done (strings l) g h =
        set-ok (IsDoneValue jinja) (render_slice jinja vars l) strings (strings l)
          (λ r e. render_slice-Every jinja vars l r g e) h
    process_value-Done (others a) g h = tt
    process_value-Done (scalar a) g h = tt
    process_value-Done (struct fs) g h = process_fields-Done fs g h
    process_value-Done nil g h = tt
    process_value-Done (pointer v) g h = process_element-Done v g h

    process_element-Done :
        (v : Value)
        → ElementGives jinja vars v
        → (process_element jinja vars v).0 ≡ ok tt
        → IsDoneElement jinja (process_element jinja vars v).1
    process_element-Done (string s) g h =
        set-ok (IsDoneElement jinja) (render_field jinja vars s) string (string s)
          (λ r e. render_field-IsFinal jinja vars s r g e) h
    process_element-Done (strings l) g h =
        set-ok (IsDoneElement jinja) (render_slice jinja vars l) strings (strings l)
          (λ r e. render_slice-Every jinja vars l r g e) h
    process_element-Done (others a) g h = tt
    process_element-Done (scalar a) g h = tt
    process_element-Done (struct fs) g h = process_fields-Done fs g h
    process_element-Done nil g h = tt
    process_element-Done (pointer v) g h = tt

    process_held-Done :
        (held : Held)
        → HeldGives jinja vars held
        → (process_held jinja vars held).0 ≡ ok tt
        → IsDoneHeld jinja (process_held jinja vars held).1
    process_held-Done (held_string s) g h =
        set-ok (IsDoneHeld jinja) (render_to_slice jinja vars s) (held_rendered s) (held_string s)
          (λ part e. held_rendered-IsDone s part g e) h
    process_held-Done (held_strings l) g h = render_in_place-Every jinja vars l g h
    process_held-Done (held_others a) g h = tt
    process_held-Done (held_scalar a) g h = tt
    process_held-Done held_nil g h = tt
    process_held-Done (held_pointer v) g h = process-Done v g h

  -- A content whose templates were rendered without an error stays as it is when it is processed
  -- again, without an error and whatever the variables are then: the values of the first time stay.
  -- The text that each of its own strings has given is taken to have no template in it, and to be
  -- rendered to itself, and a string that an interface holds not to stand for nil.
  pub process_again :
      (v rendered : Value) (later : Variables)
      → Gives jinja vars v
      → process jinja vars v ≡ (ok tt, rendered)
      → process jinja later rendered ≡ (ok tt, rendered)
  process_again v rendered later gives h =
      process-IsDone jinja later rendered
        (rw (sym (ap (λ r. r.1) h)) (process-Done v gives (ap (λ r. r.0) h)))
