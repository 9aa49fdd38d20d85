-- ===== src/Cryptography/Tests.antt =====
-- The theorems on the ciphers with a library whose ciphers leave everything as it is.
use node_ddd_boilerplate_typ.Base.{String, none, refl, some, ◌≡◌}
use node_ddd_boilerplate_typ.Cryptography.Ciphers.{
  CipherLibrary, asymmetric_rsa-round_trip, asymmetric_rsa_decrypt, asymmetric_rsa_encrypt,
  private_key, public_key, symmetric_aes-round_trip, symmetric_aes_decrypt, symmetric_aes_encrypt,
}

abbrev open_library : CipherLibrary String
open_library = record {
  from_text = λ t encoding. t;
  to_text = λ b encoding. b;
  encipher = λ k v b. some b;
  public_encrypt = λ k padding b. some b;
  private_encrypt = λ k padding b. some b;
  public_decrypt = λ k padding b. some b;
  private_decrypt = λ k padding b. some b;
  sign_content = λ a d e k f. none;
}

asymmetric_rsa-round_trip_example :
    (c : String) × (asymmetric_rsa_encrypt open_library "secret" "utf8" public_key "key" "base64"
      ≡ some c)
    × (asymmetric_rsa_decrypt open_library c "base64" private_key "other" "utf8" ≡ some "secret")
asymmetric_rsa-round_trip_example =
    asymmetric_rsa-round_trip open_library "secret" "utf8" "base64" "key" "other" "utf8" public_key
      "secret" refl refl refl

symmetric_aes-round_trip_example :
    let sent = symmetric_aes_encrypt open_library "iv" "secret" "utf8" "key" "base64" none in
    (c : String) × (sent.ciphered ≡ some c)
    × ((symmetric_aes_decrypt open_library c "base64" "key" sent.iv "utf8").ciphered
        ≡ some "secret")
symmetric_aes-round_trip_example =
    symmetric_aes-round_trip open_library "iv" "secret" "utf8" "key" "base64" "utf8" "secret" none
      "secret" refl refl refl refl
