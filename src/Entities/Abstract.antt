-- ===== src/Entities/Abstract.antt =====
-- src/shared/internal/classes/AbstractEntity.entity.ts. An entity's fields hold whatever value the
-- constructor was given, so they are values; a field that was never assigned is undefined. A method
-- takes the time at which it runs.
use node_ddd_boilerplate_typ.Base.{
  Bool, String, arith, false, if◌then◌else◌, is_empty_text, refl, true, ◌≡◌,
}
use node_ddd_boilerplate_typ.Platform.{Platform}
use node_ddd_boilerplate_typ.Value.{
  Date, Value, has_length, is_undefined, null, or_else, str, undefined,
}

-- `exists`
abbrev pub exists : Value → Bool
exists undefined = false
exists null = false
exists _ = true

-- `getDate`
unfoldable pub get_date : ⦃p : Platform⦄ → Date → Value → Date
get_date ⦃p⦄ now (str s) = if is_empty_text s then now else p.from_iso s
get_date now _ = now

-- `if (this.exists(value)) this.field = value`
abbrev pub assign : Value → Value → Value
assign value field' = if exists value then value else field'

-- `this.field ?? undefined`
abbrev pub or_undefined : Value → Value
or_undefined v = or_else v undefined

abbrev pub is_null : Value → Bool
is_null null = true
is_null _ = false

-- `validate` on an instance: it is valid.
abbrev pub validate : Bool
validate = true

pub assign-is_null : (v w : Value) → is_null w ≡ false → is_null (assign v w) ≡ false
assign-is_null undefined w h = h
assign-is_null null w h = h
assign-is_null _ w h = refl

pub assign-is_undefined : (v w : Value) → is_undefined w ≡ false → is_undefined (assign v w) ≡ false
assign-is_undefined undefined w h = h
assign-is_undefined null w h = h
assign-is_undefined _ w h = refl

-- A field that is never null is read back from the attributes.
pub assign_undefined : (v : Value) → is_null v ≡ false → assign v undefined ≡ v
assign_undefined undefined h = refl
assign_undefined null h = cc
assign_undefined _ h = refl

-- So is a field that is never undefined, which the attributes turn from null to undefined.
pub assign-or_undefined : (v : Value) → is_undefined v ≡ false → assign (or_undefined v) null ≡ v
assign-or_undefined undefined h = cc
assign-or_undefined null h = refl
assign-or_undefined _ h = refl

-- Only a text that is not empty is read as a date.
pub get_date-now :
    ⦃p : Platform⦄ (now : Date) (v : Value) → has_length v ≡ false → get_date now v ≡ now
unfolding get_date
get_date-now now (str s) h = ground arith
get_date-now now _ h = refl

pub get_date-text :
    ⦃p : Platform⦄ (now : Date) (s : String)
    → is_empty_text s ≡ false
    → get_date now (str s) ≡ p.from_iso s
unfolding get_date
get_date-text now s h = ground arith
