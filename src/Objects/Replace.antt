-- ===== src/Objects/Replace.antt =====
-- What `replaceFields` changes, at every depth.
use mathlib.Core.Path.{subst}
use node_ddd_boilerplate_typ.Base.{
  Bool, Bool-cases, List, String, [], arith, eq_iff, false, if◌then◌else◌, includes, inl, inr, not,
  refl, sym, true, ◌&&◌, ◌++◌, ◌==◌, ◌||◌, ◌∙◌, ◌∷◌, ◌≡◌, ◌⊎◌,
}
use node_ddd_boilerplate_typ.Objects.{any_listed, overwrite, replace_in, replace_nested}
use node_ddd_boilerplate_typ.Objects.Paths.{at_path, at_path-no_fields}
use node_ddd_boilerplate_typ.Value.{
  Fields, Value, arr, end, field, fields_of, find, get, is_undefined, obj, put, undefined,
}
use node_ddd_boilerplate_typ.Value.Laws.{find-put}

includes-cons :
    (n k : String) (names : List String)
    → includes names k ≡ false
    → includes (n ∷ names) k ≡ (n == k)
includes-cons n k names h = ground arith

pub find-overwrite :
    (names : List String) (r : Value) (k : String) (fs : Fields)
    → is_undefined r ≡ false
    → find k (overwrite names r fs)
      ≡ (if includes names k && not (is_undefined (find k fs)) then r else find k fs)
find-overwrite [] r k fs h = refl
find-overwrite (n ∷ names) r k fs h = elim (Bool-cases (is_undefined (find n fs))) [
  | inl absent ↦ ground (arith, eq_iff n k, find-overwrite names r k fs h)
  | inr present ↦
      ground (arith, eq_iff n k, find-put n k r fs, find-overwrite names r k (put n r fs) h)
]

pub find-replace_nested :
    (names : List String) (r : Value) (k : String) (fs : Fields)
    → find k (replace_nested names r fs) ≡ replace_in names r (find k fs)
unfolding replace_in
find-replace_nested names r k end = refl
find-replace_nested names r k (field j v fs) = ground (arith, find-replace_nested names r k fs)

replace_in-is_undefined :
    (names : List String) (r v : Value) → is_undefined (replace_in names r v) ≡ is_undefined v
unfolding replace_in
replace_in-is_undefined names r undefined = refl
replace_in-is_undefined names r _ = refl

is_undefined-eq : (v : Value) → is_undefined v ≡ true → v ≡ undefined
is_undefined-eq undefined h = refl
is_undefined-eq _ h = cc

find-fields : (v : Value) (k : String) (fs : Fields) → fields_of v ≡ fs → get v k ≡ find k fs
find-fields v k fs h = rw h refl

pub get-replace_in :
    (names : List String) (r v : Value) (k : String)
    → is_undefined r ≡ false
    → get (replace_in names r v) k ≡ (
        if includes names k && not (is_undefined (get v k))
        then r
        else replace_in names r (get v k))
unfolding replace_in
get-replace_in names r (obj fs) k h = ground (
  arith,
  find-overwrite names r k (replace_nested names r fs) h,
  find-replace_nested names r k fs,
  replace_in-is_undefined names r (find k fs),
)
get-replace_in names r (arr fs) k h = ground (
  arith,
  find-overwrite names r k (replace_nested names r fs) h,
  find-replace_nested names r k fs,
  replace_in-is_undefined names r (find k fs),
)
get-replace_in names r _ k h = ground arith

or-eq-false : {a b : Bool} → (a || b) ≡ false → (a ≡ false) × (b ≡ false)
or-eq-false {a} {b} h = ground arith

-- The replacement is a value without properties, such as a text.
module _ (names : List String) (r : Value) (defined : is_undefined r ≡ false)
    (flat : fields_of r ≡ end) where
  abbrev IsReplaced : Value → Type 0
  IsReplaced found = (found ≡ undefined) ⊎ (found ≡ r)

  get-replaced :
      (v : Value) (k : String)
      → (includes names k && not (is_undefined (get v k))) ≡ true
      → r ≡ get (replace_in names r v) k
  get-replaced v k h = sym (get-replace_in names r v k defined ∙ ground arith)

  get-kept :
      (v : Value) (k : String)
      → (includes names k && not (is_undefined (get v k))) ≡ false
      → replace_in names r (get v k) ≡ get (replace_in names r v) k
  get-kept v k h = sym (get-replace_in names r v k defined ∙ ground arith)

  pub at_path-replace_in :
      (v : Value) (path : List String) (n : String)
      → includes names n ≡ true
      → IsReplaced (at_path (replace_in names r v) (path ++ n ∷ []))
  unfolding replace_in
  at_path-replace_in v [] n listed = elim (Bool-cases (is_undefined (get v n))) [
    | inl absent ↦
        inl (get-replace_in names r v n defined ∙ ground (arith, is_undefined-eq (get v n) absent))
    | inr present ↦ inr (get-replace_in names r v n defined ∙ ground arith)
  ]
  at_path-replace_in v (k ∷ path) n listed =
      let IsBehind : Value → Type 0 = λ x. IsReplaced (at_path x (path ++ n ∷ [])) in
      elim (Bool-cases (includes names k && not (is_undefined (get v k)))) [
        | inl replaced ↦
            subst IsBehind (get-replaced v k replaced) (inl (at_path-no_fields r path n flat))
        | inr kept ↦ subst IsBehind (get-kept v k kept) (at_path-replace_in (get v k) path n listed)
      ]

  -- Along a path of keys that are not listed, the replacement only acts below.
  pub at_path-replace_in_unlisted :
      (v : Value) (path : List String)
      → any_listed names path ≡ false
      → at_path (replace_in names r v) path ≡ replace_in names r (at_path v path)
  at_path-replace_in_unlisted v [] h = refl
  at_path-replace_in_unlisted v (k ∷ path) h =
      let (own, later) = or-eq-false {a = includes names k} h in
      subst (λ x. at_path x path ≡ replace_in names r (at_path (get v k) path))
        (get-kept v k (ground arith)) (at_path-replace_in_unlisted (get v k) path later)
