-- ===== src/Objects/Paths.antt =====
-- Reading a value along a path of keys, and which keys a list names.
use mathlib.Core.Path.{subst}
use node_ddd_boilerplate_typ.Base.{List, String, [], ap, refl, sym, ◌++◌, ◌∷◌, ◌≡◌}
use node_ddd_boilerplate_typ.Value.{Value, end, fields_of, find, get, undefined}

-- The value at a path: `value?.a?.b`.
abbrev pub at_path : Value → List String → Value
at_path v [] = v
at_path v (k ∷ path) = at_path (get v k) path

-- Behind a value without own properties everything is undefined.
pub at_path-no_fields :
    (v : Value) (path : List String) (n : String)
    → fields_of v ≡ end
    → at_path v (path ++ n ∷ []) ≡ undefined
at_path-no_fields v [] n h = rw h refl
at_path-no_fields v (k ∷ path) n h =
    subst (λ x. at_path x (path ++ n ∷ []) ≡ undefined) (sym (ap (find k) h))
      (at_path-no_fields undefined path n refl)
