-- ===== src/Cryptography.antt =====
-- src/modules/core/security/Cryptography.service.ts, as far as passwords and tokens need it.
pub mod Ciphers
mod Tests
use node_ddd_boilerplate_typ.Base.{Bool, Option, String, false, none, some, true, ◌==◌}
use node_ddd_boilerplate_typ.Effects.{Call, Result, ok, reads}
use node_ddd_boilerplate_typ.Value.{Value}

-- The outcome of checking a token.
pub data Verified : Type 0 where
  decoded : Value → Verified
  token_expired : Verified
  web_token_error : (message : String) → Verified
  other_failure : Verified

-- The run time's cryptography and the token library, over the state of the outside world, from which
-- random salts come. The digest is SHA-256 of an ASCII text in base64url; `none` is a failure.
pub record NodeCrypto (S : Type 0) : Type 0 where
  pub gen_salt : S → String × S
  pub digest : String → Option String
  -- `timingSafeEqual`; `none` is that it throws, which it does on different lengths.
  pub timing_safe_equal : String → String → Option Bool
  pub sign : Value → Result String
  pub verify : String → Verified

-- What `decodeJwt` returns.
pub record Decoded : Type 0 where
  pub content : Option Value
  pub invalid_signature : Bool
  pub expired : Bool

abbrev pub decode_verified : Verified → Decoded
decode_verified (decoded v) = record {
  content = some v;
  invalid_signature = false;
  expired = false;
}
decode_verified token_expired = record { content = none; invalid_signature = false; expired = true }
decode_verified (web_token_error message) = record {
  content = none;
  invalid_signature = message == "invalid signature";
  expired = message == "jwt expired";
}
decode_verified other_failure = record {
  content = none;
  invalid_signature = false;
  expired = false;
}

module _ {S : Type 0} (node : NodeCrypto S) where
  -- `hashing`: null where the digest fails.
  abbrev pub hashing : String → Option String
  hashing data' = node.digest data'

  -- `compareBuffer`
  abbrev pub compare_buffer : String → String → Option Bool
  compare_buffer b1 b2 = node.timing_safe_equal b1 b2

  -- `generateSalt`
  abbrev pub generate_salt : Call S String
  generate_salt s = let (salt, t) = node.gen_salt s in (ok salt, t)

  -- `encodeJwt`, under the secret and the time that the application gives.
  abbrev pub encode_jwt : Value → Call S String
  encode_jwt payload = reads (λ s. node.sign payload)

  -- `decodeJwt`
  unfoldable pub decode_jwt : String → Decoded
  decode_jwt token = decode_verified (node.verify token)
