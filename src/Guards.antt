-- ===== src/Guards.antt =====
-- src/modules/api/guards/Auth.guard.ts; its lines of log are left out.
pub mod Laws
mod Tests
use Prim.Native.Char.{code}
use node_ddd_boilerplate_typ.Base.{
  Option, String, [], eqb, false, if◌then◌else◌, is_empty_text, none, some, ◌∷◌,
}
use node_ddd_boilerplate_typ.Cryptography.{Decoded, NodeCrypto, decode_jwt}
use node_ddd_boilerplate_typ.Effects.{Result, ok, throw}
use node_ddd_boilerplate_typ.Exceptions.{Error, exception, invalid_token, with_message}
use node_ddd_boilerplate_typ.Platform.{Platform}
use node_ddd_boilerplate_typ.Users.Service.{or_text}
use node_ddd_boilerplate_typ.Users.Strategy.{UserAuth}
use node_ddd_boilerplate_typ.Value.{Value, get, is_object, or_else}

-- The text behind a prefix.
abbrev pub drop_prefix : String → String → Option String
drop_prefix String.[] s = some s
drop_prefix (String.◌∷◌ c t) String.[] = none
drop_prefix (String.◌∷◌ c t) (String.◌∷◌ d s) =
    let rest = drop_prefix t s in if eqb (code c) (code d) then rest else none

-- `text.replace(part, '')`: the first occurrence goes, if there is one.
abbrev pub without_first : String → String → String
without_first part String.[] = or_text (drop_prefix part String.[]) String.[]
without_first part (String.◌∷◌ c s) =
    or_text (drop_prefix part (String.◌∷◌ c s)) (String.◌∷◌ c (without_first part s))

-- `request.user`
abbrev pub request_user : Value → UserAuth
request_user content = record {
  username = or_else (get content "username") (get content "cognito:username");
  client_id = or_else (get content "clientId") (get content "client_id");
}

module _ ⦃p : Platform⦄ where
  abbrev pub invalid : String → Error
  invalid message = exception invalid_token (with_message message) false

  -- The answer to a token without content.
  abbrev pub rejected : Decoded → Error
  rejected d =
      if d.expired
      then invalid "Authorization token was expired"
      else if d.invalid_signature
      then invalid "Authorization token has invalid signature"
      else invalid "Authorization token is invalid"

  -- The answer to a decoded token.
  abbrev pub admit : Decoded → Option Value → Result UserAuth
  admit d none = throw (rejected d)
  admit d (some content) =
      if is_object content then ok (request_user content) else throw (rejected d)

  abbrev pub admit_token : {S : Type 0} → NodeCrypto S → String → Result UserAuth
  admit_token node token = let d = decode_jwt node token in admit d d.content

  -- `AuthGuard.canActivate` on the authorization header: the user that it puts on the request.
  unfoldable pub can_activate : {S : Type 0} → NodeCrypto S → Option String → Result UserAuth
  can_activate node none = throw (invalid "Authorization token is required")
  can_activate node (some authorization) =
      if is_empty_text authorization
      then throw (invalid "Authorization token is required")
      else admit_token node (without_first "Bearer " authorization)
