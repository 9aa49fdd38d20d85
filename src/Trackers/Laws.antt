-- ===== src/Trackers/Laws.antt =====
-- Which errors of the start are known.
use node_ddd_boilerplate_typ.Base.{
  Bool, false, includes, is_empty_text, not, refl, some, true, ◌&&◌, ◌≡◌,
}
use node_ddd_boilerplate_typ.Effects.{ok, throw}
use node_ddd_boilerplate_typ.Exceptions.{
  Error, ErrorInterface, ExceptionsEnum, business, conflict, contract, default_name, exception,
  exception_text, integration, internal, invalid_token, name_or, not_found, too_many_requests,
  unauthorized,
}
use node_ddd_boilerplate_typ.Exceptions.Filter.{known_exceptions}
use node_ddd_boilerplate_typ.Platform.{Platform}
use node_ddd_boilerplate_typ.Trackers.{has_unknown_name, new_error, validate_known_exceptions}

kind-known : (kind : ExceptionsEnum) → includes known_exceptions (exception_text kind) ≡ true
kind-known contract = refl
kind-known business = refl
kind-known invalid_token = refl
kind-known unauthorized = refl
kind-known too_many_requests = refl
kind-known conflict = refl
kind-known not_found = refl
kind-known integration = refl
kind-known internal = refl

and-false : (b : Bool) → (b && not true) ≡ false
and-false true = refl
and-false false = refl

module _ ⦃p : Platform⦄ {S : Type 0} (capture : Error → S → S) where
  kept-known :
      (kind : ExceptionsEnum) (error : ErrorInterface)
      → has_unknown_name (exception kind error false) ≡ false
  unfolding has_unknown_name exception
  kept-known kind error =
      rw (kind-known kind) (and-false (not (is_empty_text (exception_text kind))))

  made_new-unknown :
      (kind : ExceptionsEnum) (error : ErrorInterface)
      → is_empty_text (name_or error.name (default_name kind)) ≡ false
      → includes known_exceptions (name_or error.name (default_name kind)) ≡ false
      → has_unknown_name (exception kind error true) ≡ true
  unfolding has_unknown_name exception
  made_new-unknown kind error filled unknown = rw (filled, unknown) refl

  -- An exception of the program that is not marked as new is known when the start fails with it:
  -- it is neither tracked nor thrown. One that is marked as new goes by the name of its error: if
  -- that is not empty and not the text of a kind, it is tracked and thrown as a plain error of its
  -- name and message.
  pub validate_known_exceptions-exception :
      (kind : ExceptionsEnum) (error : ErrorInterface) (s : S)
      → is_empty_text (name_or error.name (default_name kind)) ≡ false
      → includes known_exceptions (name_or error.name (default_name kind)) ≡ false
      → let e = exception kind error true in
        (validate_known_exceptions capture (exception kind error false) s ≡ (ok tt, s))
        × (validate_known_exceptions capture e s ≡ (throw (new_error e), capture (new_error e) s))
        × ((new_error e).info.name ≡ some (name_or error.name (default_name kind)))
        × ((new_error e).info.message ≡ error.message)
  unfolding validate_known_exceptions new_error exception
  validate_known_exceptions-exception kind error s filled unknown = (
    rw (kept-known kind error) refl,
    rw (made_new-unknown kind error filled unknown) refl,
    refl,
    refl,
  )
