-- ===== src/Guards/Laws.antt =====
-- Which requests the guard lets through, and as whom.
use Prim.Native.Char.{Char, code}
use text.Mathlib.TextPositions.{compare_self}
use text.Mathlib.TextLemmas.{nil-append, cons-append}
use node_ddd_boilerplate_typ.Base.{
  Bool-cases, Option, String, ap, concat, eq_refl, eqb, false, inl, inr, is_empty_text, none, refl,
  some, sym, true, ℕ, ◌∙◌, ◌≡◌,
}
use node_ddd_boilerplate_typ.Cryptography.{
  Decoded, NodeCrypto, Verified, decode_jwt, decode_verified, decoded, other_failure, token_expired,
  web_token_error,
}
use node_ddd_boilerplate_typ.Effects.{Result, ok, throw}
use node_ddd_boilerplate_typ.Entities.User.{User}
use node_ddd_boilerplate_typ.Exceptions.{exception, status_of}
use node_ddd_boilerplate_typ.Guards.{
  admit, admit_token, can_activate, drop_prefix, invalid, rejected, request_user, without_first,
}
use node_ddd_boilerplate_typ.Platform.{Platform}
use node_ddd_boilerplate_typ.Users.Service.{or_text}
use node_ddd_boilerplate_typ.Users.Strategy.{UserAuth, is_allowed_to_manage_user}
use node_ddd_boilerplate_typ.Value.{Value, get, is_object, str}

eqb_self : (n : ℕ) → eqb n n ≡ true
eqb_self n = rw (compare_self n, eqb) refl

drop_prefix-concat : (part s : String) → drop_prefix part (concat part s) ≡ some s
drop_prefix-concat String.[] s = ap some (nil-append s)
drop_prefix-concat (String.◌∷◌ c t) s =
    ap (drop_prefix (String.◌∷◌ c t)) (cons-append c t s)
    ∙ rw (eqb_self (code c)) (drop_prefix-concat t s)

drop_prefix-cons :
    (c : Char) (t s : String) → drop_prefix (String.◌∷◌ c t) (String.◌∷◌ c (concat t s)) ≡ some s
drop_prefix-cons c t s = rw (eqb_self (code c)) (drop_prefix-concat t s)

pub without_first-concat :
    (part s : String) → is_empty_text part ≡ false → without_first part (concat part s) ≡ s
without_first-concat String.[] s h = cc
without_first-concat (String.◌∷◌ c t) s h =
    ap (without_first (String.◌∷◌ c t)) (cons-append c t s)
    ∙ ap (λ o. or_text o (String.◌∷◌ c (without_first (String.◌∷◌ c t) (concat t s))))
        (drop_prefix-cons c t s)

-- An error, if there is one, is that of an invalid token.
abbrev pub IsInvalidToken : {A : Type 0} → Result A → Type 0
IsInvalidToken (ok a) = Unit
IsInvalidToken (throw e) = status_of e ≡ some 498

module _ ⦃p : Platform⦄ {S : Type 0} (node : NodeCrypto S) where
  rejected-status : (d : Decoded) → status_of (rejected d) ≡ some 498
  unfolding exception
  rejected-status d = elim (Bool-cases d.expired) [
    | inl expired ↦ rw expired refl
    | inr valid ↦ rw valid (elim (Bool-cases d.invalid_signature) [
      | inl forged ↦ rw forged refl
      | inr signed ↦ rw signed refl
    ])
  ]

  admit-IsInvalidToken : (d : Decoded) (o : Option Value) → IsInvalidToken (admit d o)
  admit-IsInvalidToken d none = rejected-status d
  admit-IsInvalidToken d (some content) = elim (Bool-cases (is_object content)) [
    | inl object ↦ rw object tt
    | inr other ↦ rw other (rejected-status d)
  ]

  admit_sound :
      (v : Verified) (agent : UserAuth)
      → admit (decode_verified v) (decode_verified v).content ≡ ok agent
      → (content : Value) × (v ≡ decoded content)
        × (is_object content ≡ true)
        × (agent ≡ request_user content)
  admit_sound (decoded content) agent h = elim (Bool-cases (is_object content)) [
    | inl object ↦
        let g : ok (request_user content) ≡ ok agent = rw object at h in (content, refl, object, cc)
    | inr other ↦
        let g : throw (rejected (decode_verified (decoded content))) ≡ ok agent = rw other at h in
        cc
  ]
  admit_sound token_expired agent h = cc
  admit_sound (web_token_error message) agent h = cc
  admit_sound other_failure agent h = cc

  -- What the guard throws, if anything, has status 498.
  pub can_activate-IsInvalidToken :
      (authorization : Option String) → IsInvalidToken (can_activate node authorization)
  unfolding can_activate exception
  can_activate-IsInvalidToken none = refl
  can_activate-IsInvalidToken (some a) = elim (Bool-cases (is_empty_text a)) [
    | inl empty ↦ rw empty refl
    | inr given ↦ rw given (admit-IsInvalidToken (decode_jwt node (without_first "Bearer " a)) _)
  ]

  -- The guard lets a request through only with an authorization header of which, without the first
  -- "Bearer " in it if there is one, the token library has verified the text to be an object, and
  -- only as the user that this object names.
  pub can_activate_sound :
      (authorization : Option String) (agent : UserAuth)
      → can_activate node authorization ≡ ok agent
      → (a : String) × (content : Value) × (authorization ≡ some a)
        × (node.verify (without_first "Bearer " a) ≡ decoded content)
        × (is_object content ≡ true)
        × (agent ≡ request_user content)
  unfolding can_activate decode_jwt
  can_activate_sound none agent h = cc
  can_activate_sound (some a) agent h = elim (Bool-cases (is_empty_text a)) [
    | inl empty ↦
        let g : throw (invalid "Authorization token is required") ≡ ok agent = rw empty at h in cc
    | inr given ↦
        let (content, verified, object, user) =
          admit_sound (node.verify (without_first "Bearer " a)) agent (rw given at h) in
        (a, content, refl, verified, object, user)
  ]

  -- Behind "Bearer ", a token that is verified to an object with the e-mail and the identifier of
  -- a user, both texts, is let through as that user, who may manage itself.
  pub can_activate_manages :
      (token name id : String) (content : Value) (user : User)
      → node.verify token ≡ decoded content
      → is_object content ≡ true
      → get content "username" ≡ str name
      → get content "clientId" ≡ str id
      → user.email ≡ str name
      → user.id ≡ str id
      → (agent : UserAuth) × (can_activate node (some (concat "Bearer " token)) ≡ ok agent)
        × (is_allowed_to_manage_user agent user ≡ true)
  unfolding can_activate is_allowed_to_manage_user decode_jwt
  can_activate_manages token name id content user verified object named identified email own_id = (
    record { username = str name; client_id = str id },
    ap (λ t. can_activate node (some t)) (cons-append "B" "earer " token)
        ∙ ap (admit_token node) (
            ap (without_first "Bearer ") (sym (cons-append "B" "earer " token))
            ∙ without_first-concat "Bearer " token refl)
        ∙ rw (verified, object, named, identified) refl,
    rw (email, own_id, eq_refl name, eq_refl id) refl,
  )
