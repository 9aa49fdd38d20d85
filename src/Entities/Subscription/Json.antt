-- ===== src/Entities/Subscription/Json.antt =====
-- Reading a subscription back from the text of its attributes.
use mathlib.Core.Path.{subst}
use node_ddd_boilerplate_typ.Base.{Bool, Option, String, ap, none, refl, some, sym, ℕ, ◌∙◌, ◌≡◌}
use node_ddd_boilerplate_typ.Entities.Subscription.{Subscription, get_attributes, new_subscription}
use node_ddd_boilerplate_typ.Platform.{Platform}
use node_ddd_boilerplate_typ.Users.Example.{time}
use node_ddd_boilerplate_typ.Value.{Date, Value, at_ms, bool, date, null, obj, str}
use node_ddd_boilerplate_typ.Value.Json.{json}

-- The time of the last update: null, a date or, once it has been read from a text, a text.
pub data Updated : Type 0 where
  never : Updated
  dated : ℕ → Updated
  dated_text : String → Updated

-- A subscription whose fields have the types that the class declares.
abbrev pub subscription_of : String → String → Option String → Updated → Bool → Date → Subscription
subscription_of id socket client updated listens created = record {
  database_id = str id;
  subscription_id = str socket;
  client_id = elim client [ none ↦ null | some c ↦ str c ];
  created_at = created;
  updated_at = elim updated [ never ↦ null | dated n ↦ date (at_ms n) | dated_text s ↦ str s ];
  new_connections_listen = bool listens;
}

abbrev pub IsTyped : Subscription → Type 0
IsTyped e =
    (id socket : String) × (client : Option String) × (updated : Updated) × (listens : Bool)
    × (created : Date) × (e ≡ subscription_of id socket client updated listens created)

-- What a subscription says, a time as its text. The time of creation is not part of it.
abbrev pub view : (ℕ → String) → Subscription → Value × Value × Value × Value × Value
view iso e =
    (e.database_id, e.subscription_id, e.client_id, e.new_connections_listen, json iso e.updated_at)

module _ ⦃p : Platform⦄ (iso : ℕ → String) (now : Date) where
  view-subscription_of :
      (id socket : String) (client : Option String) (updated : Updated) (listens : Bool)
      (created : Date)
      → let e = subscription_of id socket client updated listens created in
        view iso (new_subscription now (json iso (obj (get_attributes e)))) ≡ view iso e
  unfolding json new_subscription get_attributes
  view-subscription_of id socket none never listens created = refl
  view-subscription_of id socket none (dated n) listens created = refl
  view-subscription_of id socket none (dated_text s) listens created = refl
  view-subscription_of id socket (some c) never listens created = refl
  view-subscription_of id socket (some c) (dated n) listens created = refl
  view-subscription_of id socket (some c) (dated_text s) listens created = refl

  subscription_of-IsTyped :
      (id socket : String) (client : Option String) (updated : Updated) (listens : Bool)
      (created : Date)
      → let e = subscription_of id socket client updated listens created in
        IsTyped (new_subscription now (json iso (obj (get_attributes e))))
  unfolding json new_subscription get_attributes
  subscription_of-IsTyped id socket none never listens created =
      (id, socket, none, never, listens, _, refl)
  subscription_of-IsTyped id socket none (dated n) listens created =
      (id, socket, none, dated_text (iso n), listens, _, refl)
  subscription_of-IsTyped id socket none (dated_text s) listens created =
      (id, socket, none, dated_text s, listens, _, refl)
  subscription_of-IsTyped id socket (some c) never listens created =
      (id, socket, some c, never, listens, _, refl)
  subscription_of-IsTyped id socket (some c) (dated n) listens created =
      (id, socket, some c, dated_text (iso n), listens, _, refl)
  subscription_of-IsTyped id socket (some c) (dated_text s) listens created =
      (id, socket, some c, dated_text s, listens, _, refl)

  -- The attributes of a typed subscription, written and read again, give a subscription that says
  -- the same.
  pub view-json :
      (e : Subscription)
      → IsTyped e
      → view iso (new_subscription now (json iso (obj (get_attributes e)))) ≡ view iso e
  view-json e (id, socket, client, updated, listens, created, same) =
      ap (λ x. view iso (new_subscription now (json iso (obj (get_attributes x))))) same
      ∙ view-subscription_of id socket client updated listens created
      ∙ ap (view iso) (sym same)

  -- It is typed again.
  pub json-IsTyped :
      (e : Subscription)
      → IsTyped e
      → IsTyped (new_subscription now (json iso (obj (get_attributes e))))
  json-IsTyped e (id, socket, client, updated, listens, created, same) =
      subst (λ x. IsTyped (new_subscription now (json iso (obj (get_attributes x))))) (sym same)
        (subscription_of-IsTyped id socket client updated listens created)

-- What is said does not depend on the time of the call.
pub view-new_subscription :
    ⦃p : Platform⦄ (iso : ℕ → String) (now earlier : Date) (row : Value)
    → view iso (new_subscription now row) ≡ view iso (new_subscription earlier row)
unfolding new_subscription
view-new_subscription iso now earlier row = refl

-- The subscriptions that come from a document: read from it, or from the text of the attributes of
-- one that does, at any times.
pub data ComesFrom ⦃p : Platform⦄ (iso : ℕ → String) (row : Value) : Subscription → Type 0 where
  of_document : (time : Date) → ComesFrom iso row (new_subscription time row)
  of_written :
      {e : Subscription} (time : Date)
      → ComesFrom iso row e
      → ComesFrom iso row (new_subscription time (json iso (obj (get_attributes e))))

-- All of them are typed if the document is, and say the same.
pub ComesFrom-says :
    ⦃p : Platform⦄ (iso : ℕ → String) (now : Date) (row : Value) (e : Subscription)
    → ((time : Date) → IsTyped (new_subscription time row))
    → ComesFrom iso row e
    → IsTyped e × (view iso e ≡ view iso (new_subscription now row))
ComesFrom-says iso now row _ typed (of_document time) =
    (typed time, view-new_subscription iso time now row)
ComesFrom-says iso now row _ typed (of_written {e} time from) =
    let (fields, says) = ComesFrom-says iso now row e typed from in
    (json-IsTyped iso time e fields, view-json iso time e fields ∙ says)
