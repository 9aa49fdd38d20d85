-- ===== src/Cryptography/Ciphers.antt =====
-- The ciphers and signatures of src/modules/core/security/Cryptography.service.ts
use node_ddd_boilerplate_typ.Base.{Option, String, ap, none, some, ◌∙◌, ◌≡◌}

pub data Padding : Type 0 where
  pkcs1 oaep : Padding

pub data KeyType : Type 0 where
  public_key private_key : KeyType

-- `Buffer` and the ciphers of the run time; `none` is that they throw.
pub record CipherLibrary (Bytes : Type 0) : Type 0 where
  -- `Buffer.from(text, encoding)` and `buffer.toString(encoding)`
  pub from_text : String → String → Bytes
  pub to_text : Bytes → String → String
  -- The text in hexadecimal digits of `createCipheriv('aes-256-gcm', key, iv)` on the data.
  pub encipher : Bytes → Bytes → Bytes → Option String
  pub public_encrypt : String → Padding → Bytes → Option Bytes
  pub private_encrypt : String → Padding → Bytes → Option Bytes
  pub public_decrypt : String → Padding → Bytes → Option Bytes
  pub private_decrypt : String → Padding → Bytes → Option Bytes
  -- `createSign(algorithm).update(data, encoding).sign(key, format)`
  pub sign_content : String → String → String → String → String → Option String

-- `{ encrypted, iv }` and `{ decrypted, iv }`
pub record Ciphered : Type 0 where
  pub ciphered : Option String
  pub iv : String

-- `iv ?? randomBytes(12).toString('hex')`
abbrev pub iv_or : Option String → String → String
iv_or none random = random
iv_or (some iv) random = iv

-- The padding of `asymmetricRSAEncrypt`, and that of `asymmetricRSADecrypt`.
abbrev pub encrypt_padding : KeyType → Padding
encrypt_padding private_key = pkcs1
encrypt_padding public_key = oaep

abbrev pub decrypt_padding : KeyType → Padding
decrypt_padding private_key = oaep
decrypt_padding public_key = pkcs1

abbrev pub other_key : KeyType → KeyType
other_key public_key = private_key
other_key private_key = public_key

module _ {Bytes : Type 0} (library : CipherLibrary Bytes) where
  abbrev pub encoded : String → Option Bytes → Option String
  encoded encoding none = none
  encoded encoding (some b) = some (library.to_text b encoding)

  abbrev pub from_hex : Option String → Option Bytes
  from_hex none = none
  from_hex (some h) = some (library.from_text h "hex")

  -- What both methods on AES compute: each of them enciphers.
  abbrev pub aes_text : String → String → String → String → String → Option String
  aes_text data' input_encoding key_content iv output_encoding = encoded output_encoding (
      from_hex (
        library.encipher (library.from_text key_content "hex") (library.from_text iv "hex")
          (library.from_text data' input_encoding)))

  -- `symmetricAESEncrypt`, with the bytes that are drawn.
  unfoldable pub symmetric_aes_encrypt :
      String → String → String → String → String → Option String → Ciphered
  symmetric_aes_encrypt random data' input_encoding key_content output_encoding iv =
      let used = iv_or iv random in
      record {
        ciphered = aes_text data' input_encoding key_content used output_encoding;
        iv = used;
      }

  -- `symmetricAESDecrypt`
  unfoldable pub symmetric_aes_decrypt : String → String → String → String → String → Ciphered
  symmetric_aes_decrypt data' input_encoding key_content iv output_encoding = record {
    ciphered = aes_text data' input_encoding key_content iv output_encoding;
    iv = iv;
  }

  abbrev pub encrypt_with : KeyType → String → Padding → Bytes → Option Bytes
  encrypt_with private_key key padding b = library.private_encrypt key padding b
  encrypt_with public_key key padding b = library.public_encrypt key padding b

  abbrev pub decrypt_with : KeyType → String → Padding → Bytes → Option Bytes
  decrypt_with private_key key padding b = library.private_decrypt key padding b
  decrypt_with public_key key padding b = library.public_decrypt key padding b

  -- `asymmetricRSAEncrypt`
  unfoldable pub asymmetric_rsa_encrypt :
      String → String → KeyType → String → String → Option String
  asymmetric_rsa_encrypt data' input_encoding key_type key_content output_encoding =
      encoded output_encoding (
        encrypt_with key_type key_content (encrypt_padding key_type)
          (library.from_text data' input_encoding))

  -- `asymmetricRSADecrypt`
  unfoldable pub asymmetric_rsa_decrypt :
      String → String → KeyType → String → String → Option String
  asymmetric_rsa_decrypt data' input_encoding key_type key_content output_encoding =
      encoded output_encoding (
        decrypt_with key_type key_content (decrypt_padding key_type)
          (library.from_text data' input_encoding))

  -- `contentDSASign`
  abbrev pub content_dsa_sign : String → String → String → String → String → Option String
  content_dsa_sign data' input_encoding private_key_content algorithm output_format =
      library.sign_content algorithm data' input_encoding private_key_content output_format

  -- Encrypting with a key of one type and decrypting with one of the other use the same padding, so
  -- if the library, with the right keys and one padding, gets back what it encrypted, and the output
  -- encoding of the encryption is read back, the decryption gives the text of the original bytes.
  pub asymmetric_rsa-round_trip :
      (data' input_encoding encoding key other_content output_encoding : String)
      (key_type : KeyType) (b : Bytes)
      → encrypt_with key_type key
          (encrypt_padding key_type)
          (library.from_text data' input_encoding)
        ≡ some b
      → library.from_text (library.to_text b encoding) encoding ≡ b
      → decrypt_with (other_key key_type) other_content (encrypt_padding key_type) b
        ≡ some (library.from_text data' input_encoding)
      → (c : String) × (asymmetric_rsa_encrypt data' input_encoding key_type key encoding ≡ some c)
        × (asymmetric_rsa_decrypt c encoding (other_key key_type) other_content output_encoding
            ≡ some (library.to_text (library.from_text data' input_encoding) output_encoding))
  unfolding asymmetric_rsa_encrypt asymmetric_rsa_decrypt
  asymmetric_rsa-round_trip data' input_encoding encoding key other_content output_encoding
        public_key b encrypted read decrypted =
      (
        library.to_text b encoding,
        ap (encoded encoding) encrypted,
        ap (λ x. encoded output_encoding (library.private_decrypt other_content oaep x)) read
            ∙ ap (encoded output_encoding) decrypted,
      )
  asymmetric_rsa-round_trip data' input_encoding encoding key other_content output_encoding
        private_key b encrypted read decrypted =
      (
        library.to_text b encoding,
        ap (encoded encoding) encrypted,
        ap (λ x. encoded output_encoding (library.public_decrypt other_content pkcs1 x)) read
            ∙ ap (encoded output_encoding) decrypted,
      )

  -- The decryption with AES enciphers a second time. As the mode adds a stream of bytes that key and
  -- initialization vector fix, so that enciphering twice gives the bytes back, the decryption of a
  -- text that the encryption returned, under its initialization vector, gives the text of the
  -- original bytes.
  pub symmetric_aes-round_trip :
      (random data' input_encoding key encoding output_encoding h : String) (iv : Option String)
      → let k = library.from_text key "hex" in
        let v = library.from_text (iv_or iv random) "hex" in
        let plain_bytes = library.from_text data' input_encoding in
        let bytes = library.from_text h "hex" in
        (h2 : String)
        → library.encipher k v plain_bytes ≡ some h
        → library.from_text (library.to_text bytes encoding) encoding ≡ bytes
        → library.encipher k v bytes ≡ some h2
        → library.from_text h2 "hex" ≡ plain_bytes
        → let sent = symmetric_aes_encrypt random data' input_encoding key encoding iv in
          (c : String) × (sent.ciphered ≡ some c)
          × ((symmetric_aes_decrypt c encoding key sent.iv output_encoding).ciphered
              ≡ some (library.to_text plain_bytes output_encoding))
  unfolding symmetric_aes_encrypt symmetric_aes_decrypt
  symmetric_aes-round_trip random data' input_encoding key encoding output_encoding h iv h2
        enciphered read again original =
      let k = library.from_text key "hex" in
      let v = library.from_text (iv_or iv random) "hex" in
      let bytes = library.from_text h "hex" in
      (
        library.to_text bytes encoding,
        ap (λ x. encoded encoding (from_hex x)) enciphered,
        ap (λ x. encoded output_encoding (from_hex (library.encipher k v x))) read
            ∙ ap (λ x. encoded output_encoding (from_hex x)) again
            ∙ ap (λ x. some (library.to_text x output_encoding)) original,
      )
