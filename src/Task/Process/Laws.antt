-- ===== src/Task/Process/Laws.antt =====
-- pkg/exec/util/jinja.go: where ProcessJinjaTemplates stops.
use sophons.Base.{◌≡◌, refl, sym, ap, ◌∙◌}
use sophons.Base.Action.{Error, ok, err, panic}
use sophons.Variables.{Variables}
use sophons.Task.{Jinja}
use sophons.Task.Process.{
  Field, Fields, end, field, Processing, next, process, process_fields, process_field,
}

abbrev pub concat : Fields → Fields → Fields
concat end gs = gs
concat (field f fs) gs = field f (concat fs gs)

-- How the fields stand after an error: those before one field are processed, that one failed, and
-- those after it are as they were.
pub record StopsAt (jinja : Jinja) (vars : Variables) (e : Error) (old new : Fields) : Type 0 where
  before : Fields
  before' : Fields
  after : Fields
  f : Field
  f' : Field
  old_fields : old ≡ concat before (field f after)
  new_fields : new ≡ concat before' (field f' after)
  processed : process_fields jinja vars before ≡ (ok tt, before')
  failed : process_field jinja vars f ≡ (err e, f')

module _ (jinja : Jinja) (vars : Variables) where
  next-StopsAt :
      (f : Field) (fs : Fields) {e : Error} {new : Fields} (done : Processing Field)
      → process_field jinja vars f ≡ done
      → ((rest : Fields)
          → process_fields jinja vars fs ≡ (err e, rest)
          → StopsAt jinja vars e fs rest)
      → next done fs (process_fields jinja vars fs) ≡ (err e, new)
      → StopsAt jinja vars e (field f fs) new
  unfolding process
  next-StopsAt f fs (ok done, g) h later eq =
      let rest = (process_fields jinja vars fs).1 in
      let at = later rest (ap (λ r. (r.0, rest)) eq) in
      record {
        before = field f at.before;
        before' = field g at.before';
        after = at.after;
        f = at.f;
        f' = at.f';
        old_fields = ap (field f) at.old_fields;
        new_fields = sym (ap (λ r. r.1) eq) ∙ ap (field g) at.new_fields;
        processed = rw h rw at.processed refl;
        failed = at.failed;
      }
  next-StopsAt f fs (err e', g) h later eq = record {
    before = end;
    before' = end;
    after = fs;
    f = f;
    f' = g;
    old_fields = refl;
    new_fields = cc;
    processed = refl;
    failed = cc;
  }
  next-StopsAt f fs (panic, g) h later eq = cc

  -- Where the processing of a struct gives an error, the fields before one of them are processed
  -- without an error, that one gives the error, and all those after it are as they were.
  pub process_fields-StopsAt :
      (fs : Fields) (e : Error) (new : Fields)
      → process_fields jinja vars fs ≡ (err e, new)
      → StopsAt jinja vars e fs new
  unfolding process
  process_fields-StopsAt end e new eq = cc
  process_fields-StopsAt (field f fs) e new eq =
      next-StopsAt f fs (process_field jinja vars f) refl
        (λ rest h. process_fields-StopsAt fs e rest h) eq
