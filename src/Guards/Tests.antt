-- ===== src/Guards/Tests.antt =====
-- The theorems on the guard with a token library that accepts every token as Ann's.
use node_ddd_boilerplate_typ.Base.{String, concat, refl, some, true, ◌≡◌}
use node_ddd_boilerplate_typ.Cryptography.{NodeCrypto, decode_jwt, decoded}
use node_ddd_boilerplate_typ.Effects.{ok}
use node_ddd_boilerplate_typ.Entities.User.{new_user, set_preference}
use node_ddd_boilerplate_typ.Entities.UserPreference.{new_user_preference}
use node_ddd_boilerplate_typ.Guards.{can_activate, request_user, without_first}
use node_ddd_boilerplate_typ.Guards.Laws.{
  IsInvalidToken, can_activate-IsInvalidToken, can_activate_manages, can_activate_sound,
}
use node_ddd_boilerplate_typ.Users.Example.{Tables, ann, ann_auth, backend, platform}
use node_ddd_boilerplate_typ.Users.Mapper.{user_to_domain}
use node_ddd_boilerplate_typ.Users.Strategy.{UserAuth, is_allowed_to_manage_user}
use node_ddd_boilerplate_typ.Value.{Value, end, field, is_object, num, obj, str}

abbrev ann_content : Value
ann_content =
    obj (field "username" (str "a@b.c") (field "clientId" (str "u1") (field "iat" (num 1) end)))

abbrev accepting : NodeCrypto Tables
accepting = record backend.node { verify = λ t. decoded ann_content }

ann_email_and_id : (ann.email ≡ str "a@b.c") × (ann.id ≡ str "u1")
unfolding user_to_domain new_user new_user_preference set_preference
ann_email_and_id = (refl, refl)

can_activate-IsInvalidToken_example :
    IsInvalidToken (can_activate ⦃p = platform⦄ backend.node (some "Bearer x"))
can_activate-IsInvalidToken_example =
    can_activate-IsInvalidToken ⦃p = platform⦄ backend.node (some "Bearer x")

admitted_ann : can_activate ⦃p = platform⦄ accepting (some "Bearer x") ≡ ok ann_auth
unfolding can_activate decode_jwt
admitted_ann = refl

can_activate_sound_example :
    (a : String) × (content : Value) × (some "Bearer x" ≡ some a)
    × (accepting.verify (without_first "Bearer " a) ≡ decoded content)
    × (is_object content ≡ true)
    × (ann_auth ≡ request_user content)
can_activate_sound_example =
    can_activate_sound ⦃p = platform⦄ accepting (some "Bearer x") ann_auth admitted_ann

can_activate_manages_example :
    (agent : UserAuth) × (can_activate ⦃p = platform⦄ accepting (some (concat "Bearer " "x"))
      ≡ ok agent)
    × (is_allowed_to_manage_user agent ann ≡ true)
can_activate_manages_example =
    can_activate_manages ⦃p = platform⦄ accepting "x" "a@b.c" "u1" ann_content ann refl refl refl
      refl ann_email_and_id.0 ann_email_and_id.1
