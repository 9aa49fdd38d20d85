-- ===== src/Aws.antt =====
-- What the clients under src/modules/core/infra/integration/aws share: how they send a command of
-- their library and what they make of its answer. Lines of log are left out.
pub mod Cognito
pub mod Laws
pub mod S3
pub mod Sent
pub mod Sns
pub mod Sqs
mod Tests
use node_ddd_boilerplate_typ.Base.{
  Bool, List, String, [], false, if◌then◌else◌, is_some, leb, ltb, true, ◌&&◌, ◌||◌, ◌∷◌,
}
use node_ddd_boilerplate_typ.Effects.{Call, ok, pure, rethrow, throw, ◌>>=◌, ◌>>◌}
use node_ddd_boilerplate_typ.Exceptions.{Error, exception, integration, internal, with_message}
use node_ddd_boilerplate_typ.Guards.{drop_prefix}
use node_ddd_boilerplate_typ.Platform.{Platform}
use node_ddd_boilerplate_typ.Value.{
  Fields, Value, fields_of, get, num, str, truthy, undefined, values,
}

-- A client of the library: `send` of the command with this name and this input. Its answer is an
-- object, or it rejects.
pub record AwsClient (S : Type 0) : Type 0 where
  pub send : String → Fields → Call S Value
  -- The error of `JSON.stringify`.
  pub stringify_error : Error

-- `text?.includes(part)`
abbrev pub contains : String → String → Bool
contains part String.[] = is_some (drop_prefix part String.[])
contains part (String.◌∷◌ c s) = is_some (drop_prefix part (String.◌∷◌ c s)) || contains part s

-- `String(flag)`
abbrev pub flag_text : Bool → Value
flag_text true = str "true"
flag_text false = str "false"

abbrev pub given_if : Bool → Value → Value
given_if true v = v
given_if false v = undefined

-- `statusCode >= 200 && statusCode < 300`, with 500 where there is no status.
abbrev pub is_success : Value → Bool
is_success (num n) = leb 200 n && ltb n 300
is_success v = false

-- `caughtError`
unfoldable pub caught_error : ⦃p : Platform⦄ → Error → Error
caught_error e = exception integration e.info false

module _ ⦃p : Platform⦄ {S : Type 0} where
  -- `if (!value) throw this.exceptions.internal({ message }); return value`
  abbrev pub required : String → Value → Call S Value
  required message v s =
      if truthy v then (ok v, s) else (throw (exception internal (with_message message) false), s)

  module _ (client : AwsClient S) where
    -- The methods that send a command and answer with a part of the result, which must be there.
    abbrev pub sent_part : String → Fields → (Value → Value) → String → Call S Value
    sent_part command input part message =
        rethrow (do result ← client.send command input; required message (part result)) caught_error

    -- The methods that send a command and answer whether its status is a success.
    abbrev pub sent_status : String → Fields → Call S Bool
    sent_status command input =
        rethrow
          (do
            result ← client.send command input
            pure (is_success (get (get result "$metadata") "httpStatusCode")))
          caught_error

    -- The methods that send a command and answer with a list, or with the empty one.
    abbrev pub sent_list : String → Fields → String → Call S (List Value)
    sent_list command input name =
        rethrow (do result ← client.send command input; pure (values (fields_of (get result name))))
          caught_error
