-- ===== src/Effects.antt =====
-- A call of an asynchronous method: it works on the state of the outside world and returns or
-- throws. What it wrote before it threw stays written.
use node_ddd_boilerplate_typ.Base.{
  Bool, Option, ap, false, if◌then◌else◌, none, refl, some, true, ◌∙◌, ◌≡◌,
}
use node_ddd_boilerplate_typ.Exceptions.{Error}

pub data Result (A : Type 0) : Type 0 where
  ok : A → Result A
  throw : Error → Result A

abbrev pub Call : Type 0 → Type 0 → Type 0
Call S A = S → Result A × S

module _ {S A : Type 0} where
  abbrev pub pure : A → Call S A
  pure a s = (ok a, s)

  abbrev pub raise : Error → Call S A
  raise e s = (throw e, s)

  -- A call that only reads.
  abbrev pub reads : (S → Result A) → Call S A
  reads f s = (f s, s)

  abbrev pub settle : (Error → Error) → Result A → S → Result A × S
  settle parse (ok a) s = (ok a, s)
  settle parse (throw e) s = (throw (parse e), s)

  -- `try { call } catch (error) { throw parse(error) }`
  unfoldable pub rethrow : Call S A → (Error → Error) → Call S A
  rethrow m parse s = settle parse (m s).0 (m s).1

infixl 5 ◌>>=◌ ◌>>◌
abbrev pub ◌>>=◌ : {S A B : Type 0} → Call S A → (A → Call S B) → Call S B
◌>>=◌ m f s = let (r, t) = m s in elim r [ ok a ↦ f a t | throw e ↦ (throw e, t) ]

abbrev pub ◌>>◌ : {S A B : Type 0} → Call S A → Call S B → Call S B
m >> k = m >>= λ _. k

-- `if (test) throw error`
abbrev pub raise_if : {S : Type 0} → Bool → Error → Call S (Unit {0})
raise_if test e s = if test then (throw e, s) else (ok tt, s)

-- `if (!value) throw error` on a value that may be null.
abbrev pub or_raise : {S A : Type 0} → Option A → Error → Call S A
or_raise none e = raise e
or_raise (some a) e = pure a

abbrev and_then : {S A B : Type 0} → (A → Call S B) → Result A × S → Result B × S
and_then f x = elim x.0 [ ok a ↦ f a x.1 | throw e ↦ (throw e, x.1) ]

-- What follows a call that returned, and one that threw.
pub bind-ok :
    {S A B : Type 0} (m : Call S A) (f : A → Call S B) (s t : S) (a : A)
    → m s ≡ (ok a, t)
    → (m >>= f) s ≡ f a t
bind-ok m f s t a e = ap (and_then f) e

pub bind-throw :
    {S A B : Type 0} (m : Call S A) (f : A → Call S B) (s t : S) (e : Error)
    → m s ≡ (throw e, t)
    → (m >>= f) s ≡ (throw e, t)
bind-throw m f s t e h = ap (and_then f) h

and_then-returned :
    {S A B : Type 0} (f : A → Call S B) (x : Result A × S) (b : B) (u : S)
    → and_then f x ≡ (ok b, u)
    → (a : A) × (t : S) × (x ≡ (ok a, t)) × (f a t ≡ (ok b, u))
and_then-returned f (ok a, t) b u h = (a, t, refl, h)
and_then-returned f (throw e, t) b u h = cc

-- A call that returned, did so in all its parts.
pub bind-returned :
    {S A B : Type 0} (m : Call S A) (f : A → Call S B) (s : S) (b : B) (u : S)
    → (m >>= f) s ≡ (ok b, u)
    → (a : A) × (t : S) × (m s ≡ (ok a, t)) × (f a t ≡ (ok b, u))
bind-returned m f s b u h = and_then-returned f (m s) b u h

pub raise_if-returned :
    {S : Type 0} (test : Bool) (e : Error) (s t : S) (x : Unit {0})
    → raise_if test e s ≡ (ok x, t)
    → (test ≡ false) × (s ≡ t)
raise_if-returned true e s t x h = cc
raise_if-returned false e s t x h = (refl, cc)

and_then-bind :
    {S A B C : Type 0} (f : A → Call S B) (g : B → Call S C) (x : Result A × S)
    → and_then g (and_then f x) ≡ and_then (λ a. f a >>= g) x
and_then-bind f g (ok a, t) = refl
and_then-bind f g (throw e, t) = refl

pub bind-bind :
    {S A B C : Type 0} (m : Call S A) (f : A → Call S B) (g : B → Call S C) (s : S)
    → ((m >>= f) >>= g) s ≡ (m >>= (λ a. f a >>= g)) s
bind-bind m f g s = and_then-bind f g (m s)

and_then-reads :
    {S A B : Type 0} (f : A → Call S B) (s : S) (x : Result A × S)
    → x.1 ≡ s
    → ((a : A) → x ≡ (ok a, s) → (f a s).1 ≡ s)
    → (and_then f x).1 ≡ s
and_then-reads f s (ok a, t) same follows =
    ap (λ u. (f a u).1) same ∙ follows a (ap (λ u. (ok a, u)) same)
and_then-reads f s (throw e, t) same follows = same

-- A call that reads and is then followed by calls that, on what it read, leave the state alone.
pub bind-reads :
    {S A B : Type 0} (m : Call S A) (f : A → Call S B) (s : S)
    → (m s).1 ≡ s
    → ((a : A) → m s ≡ (ok a, s) → (f a s).1 ≡ s)
    → ((m >>= f) s).1 ≡ s
bind-reads m f s same follows = and_then-reads f s (m s) same follows

-- What is returned, if something is, has the property.
abbrev pub Ensures : {A : Type 0} → (A → Type 0) → Result A → Type 0
Ensures P (ok a) = P a
Ensures P (throw e) = Unit

and_then-Ensures :
    {S A B : Type 0} (P : B → Type 0) (f : A → Call S B) (x : Result A × S)
    → ((a : A) (t : S) → Ensures P (f a t).0)
    → Ensures P (and_then f x).0
and_then-Ensures P f (ok a, t) ensures = ensures a t
and_then-Ensures P f (throw e, t) ensures = tt

pub bind-Ensures :
    {S A B : Type 0} (P : B → Type 0) (m : Call S A) (f : A → Call S B) (s : S)
    → ((a : A) (t : S) → Ensures P (f a t).0)
    → Ensures P ((m >>= f) s).0
bind-Ensures P m f s ensures = and_then-Ensures P f (m s) ensures

settle-Ensures :
    {S A : Type 0} (P : A → Type 0) (parse : Error → Error) (r : Result A) (s : S)
    → Ensures P r
    → Ensures P (settle parse r s).0
settle-Ensures P parse (ok a) s h = h
settle-Ensures P parse (throw e) s h = tt

pub rethrow-Ensures :
    {S A : Type 0} (P : A → Type 0) (parse : Error → Error) (m : Call S A) (s : S)
    → Ensures P (m s).0
    → Ensures P (rethrow m parse s).0
unfolding rethrow
rethrow-Ensures P parse m s h = settle-Ensures P parse (m s).0 (m s).1 h

settle-state :
    {S A : Type 0} (parse : Error → Error) (r : Result A) (s : S) → (settle parse r s).1 ≡ s
settle-state parse (ok a) s = refl
settle-state parse (throw e) s = refl

-- Handling an error does not change the state.
pub rethrow-state :
    {S A : Type 0} (parse : Error → Error) (m : Call S A) (s : S) → (rethrow m parse s).1 ≡ (m s).1
unfolding rethrow
rethrow-state parse m s = settle-state parse (m s).0 (m s).1

pub raise_if-state : {S : Type 0} (test : Bool) (e : Error) (s : S) → (raise_if test e s).1 ≡ s
raise_if-state true e s = refl
raise_if-state false e s = refl

pub or_raise-state : {S A : Type 0} (o : Option A) (e : Error) (s : S) → (or_raise o e s).1 ≡ s
or_raise-state none e s = refl
or_raise-state (some a) e s = refl

and_then-state :
    {S A B : Type 0} (f : A → Call S B) (x : Result A × S)
    → ((a : A) (t : S) → (f a t).1 ≡ t)
    → (and_then f x).1 ≡ x.1
and_then-state f (ok a, t) same = same a t
and_then-state f (throw e, t) same = refl

-- A call that is followed by calls that leave the state alone.
pub bind-state :
    {S A B : Type 0} (m : Call S A) (f : A → Call S B) (s : S)
    → ((a : A) (t : S) → (f a t).1 ≡ t)
    → ((m >>= f) s).1 ≡ (m s).1
bind-state m f s same = and_then-state f (m s) same

and_then-post :
    {S A B : Type 0} (P : Result B × S → Type 0) (f : A → Call S B) (x : Result A × S)
    → ((a : A) (t : S) → P (f a t))
    → ((e : Error) (t : S) → P (throw e, t))
    → P (and_then f x)
and_then-post P f (ok a, t) after failed = after a t
and_then-post P f (throw e, t) after failed = failed e t

-- What holds of every outcome of the second call, and of every error, holds of both in a row.
pub bind-post :
    {S A B : Type 0} (P : Result B × S → Type 0) (m : Call S A) (f : A → Call S B) (s : S)
    → ((a : A) (t : S) → P (f a t))
    → ((e : Error) (t : S) → P (throw e, t))
    → P ((m >>= f) s)
bind-post P m f s after failed = and_then-post P f (m s) after failed

and_then-post_ok :
    {S A B : Type 0} (P : Result B × S → Type 0) (f : A → Call S B) (x : Result A × S)
    → ((a : A) (t : S) → x ≡ (ok a, t) → P (f a t))
    → ((e : Error) (t : S) → P (throw e, t))
    → P (and_then f x)
and_then-post_ok P f (ok a, t) after failed = after a t refl
and_then-post_ok P f (throw e, t) after failed = failed e t

-- What holds behind a call that returned just this, and behind one that threw.
pub bind-post_ok :
    {S A B : Type 0} (P : Result B × S → Type 0) (m : Call S A) (f : A → Call S B) (s : S)
    → ((a : A) (t : S) → m s ≡ (ok a, t) → P (f a t))
    → ((e : Error) (t : S) → P (throw e, t))
    → P ((m >>= f) s)
bind-post_ok P m f s after failed = and_then-post_ok P f (m s) after failed

pub rethrow-ok :
    {S A : Type 0} (parse : Error → Error) (m : Call S A) (s t : S) (a : A)
    → m s ≡ (ok a, t)
    → rethrow m parse s ≡ (ok a, t)
unfolding rethrow
rethrow-ok parse m s t a e = ap (λ x. settle parse x.0 x.1) e

pub rethrow-throw :
    {S A : Type 0} (parse : Error → Error) (m : Call S A) (s t : S) (e : Error)
    → m s ≡ (throw e, t)
    → rethrow m parse s ≡ (throw (parse e), t)
unfolding rethrow
rethrow-throw parse m s t e h = ap (λ x. settle parse x.0 x.1) h
