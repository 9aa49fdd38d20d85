-- ===== src/Cache.antt =====
-- src/modules/core/infra/cache/Redis.client.ts over its client library, and
-- src/modules/common/utils/helpers/CacheAccess.helper.ts
pub mod Laws
use node_ddd_boilerplate_typ.Aws.Sqs.{start_deletions}
use node_ddd_boilerplate_typ.Base.{
  Bool, List, Option, String, [], concat, false, if◌then◌else◌, includes, is_empty_text, map, none,
  some, true, ℕ, ◌==◌, ◌||◌, ◌∷◌,
}
use node_ddd_boilerplate_typ.DataParser.{to_object, to_string}
use node_ddd_boilerplate_typ.Effects.{Call, Result, ok, or_raise, pure, reads, throw, ◌>>=◌, ◌>>◌}
use node_ddd_boilerplate_typ.Exceptions.{Error, exception, integration}
use node_ddd_boilerplate_typ.Guards.{without_first}
use node_ddd_boilerplate_typ.Platform.{Platform}
use node_ddd_boilerplate_typ.Users.Service.{or_text}
use node_ddd_boilerplate_typ.Value.{Value, end, field, null, obj, str, undefined}

-- What the client library does. `status` is its own state of the connection.
pub record CacheDriver (S : Type 0) : Type 0 where
  pub get_text : String → S → Result (Option String)
  pub get_texts : List String → S → Result (List (Option String))
  pub set_text : String → String → Call S String
  pub expire : String → ℕ → Call S (Unit {0})
  pub keys_like : String → S → Result (List String)
  pub del : String → Call S ℕ
  -- A pipeline of deletions that nobody awaits.
  pub start_deletions : List String → S → S
  pub flush_all : Call S String
  pub open_connection : Call S (Unit {0})
  pub quit : Call S String
  pub status : S → String
  -- The error of `JSON.stringify`.
  pub stringify_error : Error

-- `generateKey`
abbrev pub generate_key : String → String → String
generate_key id key_pattern = concat key_pattern (concat ":" id)

-- `getId`
abbrev pub get_id : String → String → String
get_id key key_pattern = without_first (concat key_pattern ":") key

-- What `getByKeyPattern` makes of the text of a key: where the read failed, the empty object.
abbrev pub entry : ⦃p : Platform⦄ → String → Result (Option String) → Value
entry key (ok text) =
    obj (field "key" (str key) (field "value" (to_object (or_text text "null")) end))
entry key (throw e) = obj end

-- `parseValue(String(cache))` of a text that may be null.
abbrev pub parsed_text : ⦃p : Platform⦄ → Option String → Value
parsed_text text = to_object (or_text text "null")

-- `if (value) parseValue(value) else null` of `get`.
abbrev pub cached_value : ⦃p : Platform⦄ → Option String → Value
cached_value none = null
cached_value (some text) = if is_empty_text text then null else to_object text

module _ ⦃p : Platform⦄ {S : Type 0} (cache : CacheDriver S) where
  -- `listKeys`
  abbrev pub list_keys : Call S (List String)
  list_keys = reads (cache.keys_like "*")

  -- `get`
  abbrev pub get_cached : String → Call S Value
  get_cached key = do text ← reads (cache.get_text key); pure (cached_value text)

  -- The commands of `set`, which answers what the first one does.
  abbrev pub set_given : String → ℕ → String → Call S String
  set_given key ttl text = do result ← cache.set_text key text; cache.expire key ttl; pure result

  -- `set`
  abbrev pub set_cached : String → Value → ℕ → Call S String
  set_cached key v ttl = do
    text ← or_raise (to_string v) cache.stringify_error
    set_given key ttl text

  abbrev pub entry_at : S → String → Value
  entry_at s key = entry key (cache.get_text key s)

  -- `getByKeyPattern`
  abbrev pub get_by_key_pattern : String → Call S (List Value)
  get_by_key_pattern pattern' = do
    found ← reads (cache.keys_like pattern')
    reads (λ s. ok (map (entry_at s) found))

  -- `getValuesByKeyPattern` behind the keys.
  abbrev pub values_of_keys : List String → Call S (List Value)
  values_of_keys [] = pure []
  values_of_keys (k ∷ ks) = do
    texts ← reads (cache.get_texts (k ∷ ks))
    pure (map parsed_text texts)

  -- `getValuesByKeyPattern`
  abbrev pub get_values_by_key_pattern : String → Call S (List Value)
  get_values_by_key_pattern key = do found ← reads (cache.keys_like key); values_of_keys found

  -- `delete`
  abbrev pub delete_cached : String → Call S ℕ
  delete_cached key = cache.del key

  -- `deleteAll`
  abbrev pub delete_all : Call S String
  delete_all = cache.flush_all

  -- What `remove` does on each batch of keys that the scan finds.
  abbrev pub remove_batch : List String → S → S
  remove_batch [] s = s
  remove_batch (k ∷ ks) s = cache.start_deletions (k ∷ ks) s

  -- The state with the field `isConnected`.
  abbrev pub Connection : Type 0
  Connection = Bool × S

  -- `connect` behind the answer of the library.
  abbrev pub connected : Result (Unit {0}) → S → Result Bool × Connection
  connected (ok u) t =
      let is_connected = includes ("connect" ∷ "ready" ∷ []) (cache.status t) in
      (ok is_connected, (is_connected, t))
  connected (throw e) t = (
    throw (
        exception integration
          (record {
            name = none;
            message = "Error to connect redis client";
            code = undefined;
            details = str e.message;
            cause = undefined;
            stack = undefined;
          })
          false),
    (false, t),
  )

  -- `connect`
  unfoldable pub connect : Call Connection Bool
  connect (flag, s) = let (r, t) = cache.open_connection s in connected r t

  -- `wasClosed`
  abbrev pub was_closed : String → S → Bool
  was_closed answer t = answer == "OK" || includes ("wait" ∷ "close" ∷ "end" ∷ []) (cache.status t)

  -- `disconnect` behind the answer of the library.
  abbrev pub disconnected : Bool → Result String → S → Result Bool × Connection
  disconnected flag (ok answer) t =
      if was_closed answer t then (ok true, (false, t)) else (ok false, (flag, t))
  disconnected flag (throw e) t = (ok false, (flag, t))

  -- `disconnect`
  unfoldable pub disconnect : Call Connection Bool
  disconnect (flag, s) = let (r, t) = cache.quit s in disconnected flag r t
