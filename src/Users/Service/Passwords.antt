-- ===== src/Users/Service/Passwords.antt =====
-- Storing a password and checking one against it.
use Prim.Native.Char.{code}
use text.Mathlib.TextLemmas.{nil-append, cons-append}
use node_ddd_boilerplate_typ.Base.{
  Bool, Option, String, ap, concat, eqb, false, is_empty_text, none, not, refl, some, true, ◌||◌,
  ◌∙◌, ◌≡◌,
}
use node_ddd_boilerplate_typ.Effects.{
  bind-ok, bind-reads, ok, raise_if, raise_if-state, throw, ◌>>=◌,
}
use node_ddd_boilerplate_typ.Entities.User.{User, set_password}
use node_ddd_boilerplate_typ.Platform.{Platform}
use node_ddd_boilerplate_typ.Users.Service.{
  Backend, after_bar, before_bar, has_no_length, incorrect_password, invalid_parts,
  invalid_password, or_text, password_hash, protect_password, range_error, same_or_raise,
  second_part, text_of, validate_parts, validate_password,
}
use node_ddd_boilerplate_typ.Value.{Date, has_length}

-- A text without "|".
abbrev pub NoBar : String → Type 0
NoBar String.[] = Unit
NoBar (String.◌∷◌ c s) = (eqb (code c) b'|' ≡ false) × NoBar s

-- What is stored for a salt and a hash.
abbrev pub stored_password : String → String → String
stored_password salt hash = concat salt (concat "|" hash)

bar-concat : (hash : String) → concat "|" hash ≡ String.◌∷◌ "|" hash
bar-concat hash = cons-append "|" "" hash ∙ ap (String.◌∷◌ "|") (nil-append hash)

before_bar-stored :
    (salt hash : String) → NoBar salt → before_bar (stored_password salt hash) ≡ salt
before_bar-stored String.[] hash h = ap before_bar (nil-append (concat "|" hash) ∙ bar-concat hash)
before_bar-stored (String.◌∷◌ c s) hash h =
    ap before_bar (cons-append c s (concat "|" hash))
    ∙ (rw (h.0) (ap (String.◌∷◌ c) (before_bar-stored s hash h.1)))

after_bar-stored :
    (salt hash : String) → NoBar salt → after_bar (stored_password salt hash) ≡ some hash
after_bar-stored String.[] hash h = ap after_bar (nil-append (concat "|" hash) ∙ bar-concat hash)
after_bar-stored (String.◌∷◌ c s) hash h =
    ap after_bar (cons-append c s (concat "|" hash)) ∙ (rw (h.0) (after_bar-stored s hash h.1))

before_bar-NoBar : (hash : String) → NoBar hash → before_bar hash ≡ hash
before_bar-NoBar String.[] h = refl
before_bar-NoBar (String.◌∷◌ c s) h = rw (h.0) (ap (String.◌∷◌ c) (before_bar-NoBar s h.1))

is_empty_text-stored :
    (salt hash : String)
    → is_empty_text salt ≡ false
    → is_empty_text (stored_password salt hash) ≡ false
is_empty_text-stored String.[] hash h = cc
is_empty_text-stored (String.◌∷◌ c s) hash h = ap is_empty_text (cons-append c s (concat "|" hash))

module _ ⦃p : Platform⦄ {S : Type 0} (b : Backend S) (now : Date) where
  -- A salt and a hash that are not empty are stored with a bar between them.
  pub protect_password_lem :
      (password salt hash : String) (s t : S)
      → b.node.gen_salt s ≡ (salt, t)
      → is_empty_text salt ≡ false
      → password_hash b now salt password ≡ some hash
      → is_empty_text hash ≡ false
      → protect_password b now password s ≡ (ok (stored_password salt hash), t)
  unfolding protect_password
  protect_password_lem password salt hash s t drawn full digest full_hash =
      rw (drawn, full, digest, full_hash) refl

  -- Against a stored text, what is checked are the parts it was stored from.
  pub validate_password_lem :
      (u : User) (password salt hash : String) (s : S)
      → is_empty_text salt ≡ false
      → NoBar salt
      → NoBar hash
      → validate_password b now (set_password now (stored_password salt hash) u) password s
        ≡ validate_parts b now salt (some hash) password s
  unfolding validate_password set_password
  validate_password_lem u password salt hash s full no_bar no_bar_hash =
      rw
        (
          is_empty_text-stored salt hash full,
          before_bar-stored salt hash no_bar,
          after_bar-stored salt hash no_bar,
          before_bar-NoBar hash no_bar_hash,
        )
        refl

  -- A protected password validates: the text that `protectPassword` returns, stored as the user's
  -- password, is accepted with the same password, if the salt that is drawn and the hash of the
  -- password under it are not empty and without a bar, and the hash compares as equal to itself.
  pub password_round_trip :
      (u : User) (password salt hash : String) (s t : S)
      → b.node.gen_salt s ≡ (salt, t)
      → is_empty_text salt ≡ false
      → NoBar salt
      → password_hash b now salt password ≡ some hash
      → is_empty_text hash ≡ false
      → NoBar hash
      → b.node.timing_safe_equal hash hash ≡ some true
      → (protect_password b now password
            >>= (λ text. validate_password b now (set_password now text u) password))
          s
        ≡ (ok tt, t)
  password_round_trip u password salt hash s t drawn full no_bar digest full_hash no_bar_hash same =
      bind-ok (protect_password b now password)
        (λ text. validate_password b now (set_password now text u) password) s t
        (stored_password salt hash)
        (protect_password_lem password salt hash s t drawn full digest full_hash)
      ∙ validate_password_lem u password salt hash t full no_bar no_bar_hash
      ∙ rw (full, full_hash, digest, same) refl

  same_or_raise_lem :
      (o : Option Bool) (s : S)
      → same_or_raise b now o s ≡ elim o [
        | none ↦ (throw range_error, s)
        | some true ↦ (ok tt, s)
        | some false ↦ (throw incorrect_password, s)
      ]
  same_or_raise_lem none s = refl
  same_or_raise_lem (some true) s = refl
  same_or_raise_lem (some false) s = refl

  -- A password is checked against a text stored from a salt and a hash, both not empty and without
  -- a bar: the check succeeds if the comparison of the stored hash with the computed one answers
  -- that they are equal, throws 401 if it answers that they are not, and throws the error of the
  -- comparison, a range error, if it throws. The state stays.
  pub validate_password_answers :
      (u : User) (password salt hash : String) (s : S)
      → is_empty_text salt ≡ false
      → NoBar salt
      → is_empty_text hash ≡ false
      → NoBar hash
      → validate_password b now (set_password now (stored_password salt hash) u) password s
        ≡ elim (b.node.timing_safe_equal hash (or_text (password_hash b now salt password) "h2")) [
          | none ↦ (throw range_error, s)
          | some true ↦ (ok tt, s)
          | some false ↦ (throw incorrect_password, s)
        ]
  validate_password_answers u password salt hash s full no_bar full_hash no_bar_hash =
      validate_password_lem u password salt hash s full no_bar no_bar_hash
      ∙ rw (full, full_hash)
          (same_or_raise_lem
            (b.node.timing_safe_equal hash (or_text (password_hash b now salt password) "h2")) s)

  same_or_raise-state : (o : Option Bool) (s : S) → (same_or_raise b now o s).1 ≡ s
  same_or_raise-state none s = refl
  same_or_raise-state (some same) s = raise_if-state (not same) incorrect_password s

  validate_parts-state :
      (salt : String) (hash : Option String) (password : String) (s : S)
      → (validate_parts b now salt hash password s).1 ≡ s
  validate_parts-state salt hash password s =
      let same =
        b.node.timing_safe_equal (or_text hash "")
          (or_text (password_hash b now salt password) "h2") in
      bind-reads (raise_if (is_empty_text salt || has_no_length hash) invalid_parts)
        (λ x. same_or_raise b now same) s
        (raise_if-state (is_empty_text salt || has_no_length hash) invalid_parts s)
        (λ x read. same_or_raise-state same s)

  -- The check of a password does not change the state.
  pub validate_password-state :
      (u : User) (password : String) (s : S) → (validate_password b now u password s).1 ≡ s
  unfolding validate_password
  validate_password-state u password s =
      let salt = before_bar (text_of u.password) in
      let hash = second_part (after_bar (text_of u.password)) in
      bind-reads (raise_if (not (has_length u.password)) invalid_password)
        (λ x. validate_parts b now salt hash password) s
        (raise_if-state (not (has_length u.password)) invalid_password s)
        (λ x read. validate_parts-state salt hash password s)
