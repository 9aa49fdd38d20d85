-- ===== src/DataParser/Laws.antt =====
-- What the parser gives back of what it wrote.
use node_ddd_boilerplate_typ.Base.{
  String, ap, false, if◌then◌else◌, is_empty_text, refl, some, ◌∙◌, ◌≡◌,
}
use node_ddd_boilerplate_typ.DataParser.{object_text, text_or, to_object, to_string}
use node_ddd_boilerplate_typ.Platform.{Platform}
use node_ddd_boilerplate_typ.Value.{Fields, Value, obj}

pub object_text-some :
    ⦃p : Platform⦄ (v : Value) (s : String)
    → p.stringify v ≡ some s
    → is_empty_text s ≡ false
    → object_text v ≡ some s
object_text-some ⦃p⦄ v s written given =
    ap (λ o. text_or o (p.to_text v)) written ∙ ap (λ b. some (if b then p.to_text v else s)) given

-- If the platform reads back the text that it writes of an object, and that text is not empty, then
-- the object that is written and read again is itself.
pub to_string-to_object :
    ⦃p : Platform⦄ (fs : Fields) (s : String)
    → p.stringify (obj fs) ≡ some s
    → is_empty_text s ≡ false
    → p.parse s ≡ some (obj fs)
    → (to_string (obj fs) ≡ some s) × (to_object s ≡ obj fs)
unfolding to_string
to_string-to_object ⦃p⦄ fs s written given read =
    (object_text-some (obj fs) s written given, rw read refl)
