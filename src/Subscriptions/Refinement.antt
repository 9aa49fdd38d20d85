-- ===== src/Subscriptions/Refinement.antt =====
-- What the subscription service returns, against what the documents say: read through the cache,
-- and got back after it was saved.
use node_ddd_boilerplate_typ.Entities.Subscription
use node_ddd_boilerplate_typ.Base.{Option, String, false, is_empty_text, none, some, ℕ, ◌≡◌}
use node_ddd_boilerplate_typ.Effects.{ok}
use node_ddd_boilerplate_typ.Entities.Subscription.{Subscription}
use node_ddd_boilerplate_typ.Entities.Subscription.Json.{ComesFrom}
use node_ddd_boilerplate_typ.Platform.{Platform}
use node_ddd_boilerplate_typ.Subscriptions.{Stores, save_on_cache}
use node_ddd_boilerplate_typ.Value.{Date, Value, obj}
use node_ddd_boilerplate_typ.Value.Json.{json}

module _ ⦃p : Platform⦄ {S : Type 0} (stores : Stores S) (now : Date) (iso : ℕ → String) where
  -- The attributes of a subscription, as the service writes them.
  abbrev attributes_of : Subscription → Value
  attributes_of e = obj (Subscription.get_attributes e)

  -- The text is the one that the platform writes of a subscription's attributes, and it is read
  -- again as JSON says.
  abbrev pub IsTextOf : Subscription → String → Type 0
  IsTextOf e text =
      (p.stringify (attributes_of e) ≡ some text)
      × (is_empty_text text ≡ false)
      × (p.parse text ≡ some (json iso (attributes_of e)))

  -- The cache has nothing, or the text of a subscription that comes from the document.
  abbrev pub IsFrom : Value → Option String → Type 0
  IsFrom row none = Unit
  IsFrom row (some text) = (e : Subscription) × ComesFrom iso row e × IsTextOf e text

  -- What is set in the cache is got from it, and the time to live takes nothing away at once.
  abbrev pub KeepsTexts : Type 0
  KeepsTexts =
      (key text : String) (r : String) (n : ℕ) (s t u : S)
      → stores.cache.set_text key text s ≡ (ok r, t)
      → stores.cache.expire key n t ≡ (ok tt, u)
      → stores.cache.get_text key u ≡ ok (some text)

  -- The cache takes every subscription under the identifier.
  abbrev pub CacheTakes : String → S → Type 0
  CacheTakes id s =
      (e : Subscription) → (r : String) × (t : S) × (save_on_cache stores now id e s ≡ (ok r, t))
