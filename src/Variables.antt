-- ===== src/Variables.antt =====
-- pkg/variables/variables.go: the variables of a play, the values that YAML gives
-- them, and their reading from a file.
use sophons.Base.{String, Bool, List}
use sophons.Base.Dict.{Dict, copy}
use sophons.Base.Int.{ℤ}
use sophons.Base.Action.{Outcome, and_then}

-- What an `any` holds. A floating-point number stands as its digits; `strings` is a []string, which
-- only the rendering of a template makes.
mutual
  pub data Any : Type 0 where
    null : Any
    boolean : Bool → Any
    integer : ℤ → Any
    float : String → Any
    text : String → Any
    strings : List String → Any
    list : Items → Any
    object : Fields → Any

  pub data Items : Type 0 where
    end : Items
    item : Any → Items → Items

  pub data Fields : Type 0 where
    done : Fields
    field : String → Any → Fields → Fields

abbrev pub Variables : Type 0
Variables = Dict Any

-- v.Merge(other)
abbrev pub merge : Variables → Variables → Variables
merge v other = copy v other

-- LoadFromFile, over os.ReadFile and yaml.Unmarshal.
unfoldable pub load_from_file :
    {W : Type 0}
    → (String → W → Outcome String)
    → (String → Outcome Variables)
    → String
    → W
    → Outcome Variables
load_from_file read_file unmarshal path w = and_then (read_file path w) unmarshal
