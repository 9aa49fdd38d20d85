-- ===== src/Users/Query/Laws.antt =====
-- What the queries select and where they look.
use mathlib.Core.Path.{subst}
use node_ddd_boilerplate_typ.Base.{
  Bool, List, Option, String, [], arith, false, if◌then◌else◌, is_empty_text, none, not, refl, some,
  suc, true, zero, ℕ, ◌*◌, ◌<◌, ◌==◌, ◌∷◌, ◌≡◌, ◌≤◌,
}
use node_ddd_boilerplate_typ.Users.Query.{
  BuildParams, build_params, equal, paged, set_condition, skip_of, soft_deleted_where, take_of,
}
use node_ddd_boilerplate_typ.Value.{find, str}

-- Whether a column is selected.
abbrev pub selects : String → List (String × Bool) → Bool
selects k [] = false
selects k ((j, b) ∷ s) = if j == k then b else selects k s

-- The password is selected only where it is not left out, the phone and the document only with the
-- sensitive data, and the e-mail and the deleting agent always.
pub build_params-select :
    (p : BuildParams)
    → (selects "password" (build_params p).select ≡ not p.without_password)
      × (selects "phone" (build_params p).select ≡ not p.without_sensitive_data)
      × (selects "document" (build_params p).select ≡ not p.without_sensitive_data)
      × (selects "email" (build_params p).select ≡ true)
      × (selects "deletedBy" (build_params p).select ≡ true)
unfolding build_params
build_params-select p = (refl, refl, refl, refl, refl)

-- A query by an identifier that is not empty has this one alternative: the identifier and the
-- conditions on soft deletion, whatever other filter stands beside it.
pub build_params-id :
    (p : BuildParams) (id : String)
    → find "id" p.attributes ≡ str id
    → is_empty_text id ≡ false
    → (build_params p).wheres
      ≡ set_condition "id" (equal (str id)) (soft_deleted_where p.select_soft_deleted) ∷ []
unfolding build_params
build_params-id p id e given = rw (e, given) refl

-- A page of size `t` from its limit and index.
abbrev IsPage : Option ℕ → Option ℕ → ℕ → Type 0
IsPage limit page t =
    (g : ℕ) × (limit ≡ some t)
    × (page ≡ some g)
    × (skip_of (paged limit page) ≡ some (g * t))
    × (0 < t)
    × (t ≤ g * t)

paged-IsPage :
    (limit page : Option ℕ) (t : ℕ) → take_of (paged limit page) ≡ some t → IsPage limit page t
paged-IsPage none page t h = cc
paged-IsPage (some zero) none t h = cc
paged-IsPage (some zero) (some g) t h = cc
paged-IsPage (some (suc l)) none t h = cc
paged-IsPage (some (suc l)) (some zero) t h = cc
paged-IsPage (some (suc l)) (some (suc g)) t h =
    let e : suc l ≡ t = ground arith in
    subst (IsPage (some (suc l)) (some (suc g))) e
      (suc g, refl, refl, refl, omega arith, grind arith)

-- If a number of rows is set, it is the limit and not 0, the page index is given, the rows start
-- at the index times the limit, and this is not before row `limit`: the first rows are on no page.
pub build_params-page :
    (p : BuildParams) (t : ℕ)
    → (build_params p).take ≡ some t
    → (g : ℕ) × (p.limit ≡ some t)
      × (p.page ≡ some g)
      × ((build_params p).skip ≡ some (g * t))
      × (0 < t)
      × (t ≤ g * t)
unfolding build_params
build_params-page p t h = paged-IsPage p.limit p.page t h
