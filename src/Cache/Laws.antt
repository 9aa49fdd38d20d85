-- ===== src/Cache/Laws.antt =====
-- Keys and the connection of the cache.
use text.Mathlib.TextLemmas.{append_assoc, cons-append}
use node_ddd_boilerplate_typ.Base.{
  Bool, Bool-cases, String, [], ap, concat, false, includes, inl, inr, is_empty_text, refl, sym,
  true, ◌∙◌, ◌∷◌, ◌≡◌, ◌⊎◌,
}
use node_ddd_boilerplate_typ.Cache.{
  CacheDriver, connect, connected, disconnect, disconnected, generate_key, get_id, was_closed,
}
use node_ddd_boilerplate_typ.Effects.{Result, ok, throw}
use node_ddd_boilerplate_typ.Guards.{without_first}
use node_ddd_boilerplate_typ.Guards.Laws.{without_first-concat}
use node_ddd_boilerplate_typ.Platform.{Platform}

concat-separator : (key_pattern : String) → is_empty_text (concat key_pattern ":") ≡ false
concat-separator String.[] = refl
concat-separator (String.◌∷◌ c s) = ap is_empty_text (cons-append c s ":")

-- The identifier that was put into a key is read back from it.
pub get_id-generate_key :
    (id key_pattern : String) → get_id (generate_key id key_pattern) key_pattern ≡ id
get_id-generate_key id key_pattern =
    ap (without_first (concat key_pattern ":")) (sym (append_assoc key_pattern ":" id))
    ∙ without_first-concat (concat key_pattern ":") id (concat-separator key_pattern)

module _ ⦃p : Platform⦄ {S : Type 0} (cache : CacheDriver S) where
  -- Whether the flag says that the cache is connected exactly when the library does.
  abbrev pub IsCoherent : Bool × S → Type 0
  IsCoherent (flag, s) = flag ≡ includes ("connect" ∷ "ready" ∷ []) (cache.status s)

  connected-flag :
      (r : Result (Unit {0})) (t : S)
      → ((connected cache r t).0 ≡ ok (connected cache r t).1.0)
        ⊎ ((connected cache r t).1.0 ≡ false)
  connected-flag (ok u) t = inl refl
  connected-flag (throw e) t = inr refl

  disconnected-flag :
      (flag : Bool) (r : Result String) (t : S)
      → ((disconnected cache flag r t).0 ≡ ok true) × ((disconnected cache flag r t).1.0 ≡ false)
        ⊎ ((disconnected cache flag r t).0 ≡ ok false) × ((disconnected cache flag r t).1.0 ≡ flag)
  disconnected-flag flag (ok answer) t = elim (Bool-cases (was_closed cache answer t)) [
    | inl h ↦ inl (rw h refl, rw h refl)
    | inr h ↦ inr (rw h refl, rw h refl)
  ]
  disconnected-flag flag (throw e) t = inr (refl, refl)

  -- Connecting either answers what the flag then says, or throws and the flag is off.
  -- Disconnecting never throws: it answers true and turns the flag off, or it answers false and
  -- leaves the flag as it was.
  pub connection_flag :
      (flag : Bool) (s : S)
      → (((connect cache (flag, s)).0 ≡ ok (connect cache (flag, s)).1.0)
          ⊎ ((connect cache (flag, s)).1.0 ≡ false))
        × (((disconnect cache (flag, s)).0 ≡ ok true) × ((disconnect cache (flag, s)).1.0 ≡ false)
            ⊎ ((disconnect cache (flag, s)).0 ≡ ok false)
              × ((disconnect cache (flag, s)).1.0 ≡ flag))
  unfolding connect disconnect
  connection_flag flag s = (
    connected-flag (cache.open_connection s).0 (cache.open_connection s).1,
    disconnected-flag flag (cache.quit s).0 (cache.quit s).1,
  )
