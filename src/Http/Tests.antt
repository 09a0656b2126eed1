-- ===== src/Http/Tests.antt =====
-- One caller of a small organization, and two server errors.
use lakira_backend.Base.{◌≡◌, ◌↔◌, false, refl, sym, ◌∙◌, none, some, List, [], ◌∷◌, arith}
use lakira_backend.Text.{Text, codes}
use lakira_backend.Store.{MembershipRole, ok}
use lakira_backend.Samples.{ann, membership, small_world}
use lakira_backend.Config.Fields.{NodeEnv}
use lakira_backend.Config.Refusals.{after_prefix}
use lakira_backend.Http.Auth.{
  Verified, claimed, refused, AuthContext, up_to_space, bearer_token, auth_middleware,
  assert_has_org_role, authorize,
}
use lakira_backend.Http.AuthLaws.{IsEntitled, authorize_iff}
use lakira_backend.Http.Errors.{Thrown, handle_error, send_error, to_app_error, to_client_error}
use lakira_backend.Http.ErrorLaws.{handle_error_masks}

-- Every token but the empty one is of user 1, in organization 9.
abbrev verify : Text → Verified
verify [] = refused
verify (_ ∷ _) = claimed (record { user_id = 1; organization_id = some 9 })

abbrev owners : List MembershipRole
owners = MembershipRole.owner ∷ []

abbrev ann_context : AuthContext
ann_context = record {
  user = ann;
  organization_id = 9;
  membership = membership 5 1 MembershipRole.owner;
}

let_in_run :
    authorize verify owners (some (codes "Bearer abc def")) small_world
    ≡ (ok ann_context, small_world)
unfolding authorize auth_middleware bearer_token up_to_space assert_has_org_role after_prefix
let_in_run = refl

authorize_iff_example :
    (authorize verify owners (some (codes "Bearer abc def")) small_world
      ≡ (ok ann_context, small_world))
    ↔ IsEntitled verify owners (some (codes "Bearer abc def")) small_world ann_context
authorize_iff_example =
    authorize_iff verify owners (some (codes "Bearer abc def")) small_world ann_context

abbrev leaking : Thrown
leaking = Thrown.other (record {
  message = codes "password authentication failed";
  status = none;
  expose = false;
  is_uri_error = false;
})

abbrev telling : Thrown
telling = Thrown.app 500 (codes "Metric settings are missing")

answered_500 :
    ((handle_error NodeEnv.production (some (codes "at")) leaking).response.status_code ≡ 500)
    × ((handle_error NodeEnv.production none telling).response.status_code ≡ 500)
unfolding handle_error send_error to_app_error to_client_error
answered_500 = (refl, refl)

handle_error_masks_example :
    (handle_error NodeEnv.production (some (codes "at")) leaking).response
    ≡ (handle_error NodeEnv.production none telling).response
handle_error_masks_example =
    handle_error_masks NodeEnv.production (some (codes "at")) none leaking telling refl
      (omega (arith, answered_500.0)) (answered_500.1 ∙ sym answered_500.0)
