-- ===== src/DataParser.antt =====
-- src/modules/common/utils/helpers/DataParser.helper.ts
pub mod Laws
use node_ddd_boilerplate_typ.Base.{
  List, Option, String, [], if◌then◌else◌, is_empty_text, join, none, some, ◌∷◌,
}
use node_ddd_boilerplate_typ.Platform.{Platform}
use node_ddd_boilerplate_typ.Value.{
  Fields, Value, arr, bool, date, end, field, null, num, obj, str, undefined,
}

-- `text || other`, where the text may be missing because its computation threw.
abbrev pub text_or : Option String → String → Option String
text_or none other = none
text_or (some text) other = some (if is_empty_text text then other else text)

-- `JSON.stringify(data) || data?.toString()` on an object; `none` is that it throws.
abbrev pub object_text : ⦃p : Platform⦄ → Value → Option String
object_text ⦃p⦄ v = text_or (p.stringify v) (p.to_text v)

abbrev pub joined : Option (List String) → Option String
joined none = none
joined (some texts) = some (join ", " texts)

abbrev pub text_and_rest : Option String → Option (List String) → Option (List String)
text_and_rest (some t) (some ts) = some (t ∷ ts)
text_and_rest _ _ = none

unfoldable mutual
  -- `toString`; `none` is that it throws.
  pub to_string : ⦃p : Platform⦄ → Value → Option String
  to_string undefined = some ""
  to_string null = some ""
  to_string ⦃p⦄ (bool b) = some (p.to_text (bool b))
  to_string ⦃p⦄ (num n) = some (p.to_text (num n))
  to_string (str s) = some s
  to_string (date d) = object_text (date d)
  to_string (arr fs) = joined (to_strings fs)
  to_string (obj fs) = object_text (obj fs)

  -- `data.map((d) => this.toString(d))`
  pub to_strings : ⦃p : Platform⦄ → Fields → Option (List String)
  to_strings end = some []
  to_strings (field k v fs) = text_and_rest (to_string v) (to_strings fs)

abbrev pub value_or_null : Option Value → Value
value_or_null none = null
value_or_null (some v) = v

-- `toObject(text).data`
abbrev pub to_object : ⦃p : Platform⦄ → String → Value
to_object ⦃p⦄ text = value_or_null (p.parse text)
