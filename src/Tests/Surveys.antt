-- ===== src/Tests/Surveys.antt =====
-- A public survey with its token, and a sample that carries it.
use openwrt_controller.Base.{
  true, false, List, pos, [], ◌∷◌, ◌++◌, some, codes, ◌≡◌, refl, select_row, text_eq, update_rows,
}
use openwrt_controller.Surveys.{
  Survey, get_survey, create_survey, set_survey_token, set_survey_status, points_limit,
}
use openwrt_controller.Surveys.Handlers.{
  SurveyState, SurveyWeb, Sample, survey_allow, role_at_least, post_survey_sample,
}
use openwrt_controller.Surveys.Manage.{create_survey_endpoint, start_survey}
use openwrt_controller.Surveys.Samples.{IsRefused, no_sample_is_accepted}

abbrev web : SurveyWeb
web = record {
  to_upper = λ s. s;
  to_lower = λ s. s;
  trim_space = λ s. s;
  sha256_hex = λ s. codes "#" ++ s;
  is_inet = λ s. true;
  coordinates = λ s. some true;
}

abbrev walk : List Survey
unfolding create_survey set_survey_token set_survey_status
walk = set_survey_status 3 (codes "s1") (codes "active") (
    set_survey_token 2 (codes "s1") (codes "#secret")
      (create_survey 1 (codes "s1") (codes "north") (codes "Walk") [] (codes "public") [] []))

abbrev state : SurveyState
state = record {
  tenants =
      (record {
        schema_alias = codes "acme";
        is_active = true;
        surveys = walk;
        public_sites = codes "north" ∷ [];
      })
      ∷ [];
  lockdown = false;
  cache = [];
  buckets = [];
}

abbrev sample : Sample
sample = record {
  id = codes "s1";
  token = codes "secret";
  body = codes "{}";
  ip = codes "10.0.0.1";
  agent = codes "phone";
}

-- The eleventh request of a second is over the limit.
allows_ten : (survey_allow 9 (1 ∷ 1 ∷ 1 ∷ 1 ∷ 1 ∷ 1 ∷ 1 ∷ 1 ∷ 1 ∷ [])).0 ≡ true
unfolding survey_allow
allows_ten = refl

refuses_eleven : (survey_allow 9 (0 ∷ 1 ∷ 1 ∷ 1 ∷ 1 ∷ 1 ∷ 1 ∷ 1 ∷ 1 ∷ 1 ∷ [])).0 ≡ false
unfolding survey_allow
refuses_eleven = refl

admin_may_operate : role_at_least web (codes "ADMIN") (codes "OPERATOR") ≡ true
unfolding role_at_least text_eq
admin_may_operate = refl

large_limit : points_limit (pos 20000) ≡ 5000
unfolding points_limit
large_limit = refl

-- The sample with the survey's own token.
own_token_status : (post_survey_sample web 5 sample state).0 ≡ 401
unfolding post_survey_sample get_survey select_row walk update_rows text_eq
own_token_status = refl

no_sample_is_accepted_example : IsRefused state.tenants (post_survey_sample web 5 sample state)
no_sample_is_accepted_example = no_sample_is_accepted web 5 sample state

-- The public survey of `walk` by its endpoints: created, then started.
walk_by_endpoints :
    (start_survey web
      (codes "tenant_acme")
      (codes "OPERATOR")
      3
      (codes "s1")
      (create_survey_endpoint web
        (codes "tenant_acme")
        (codes "OPERATOR")
        1
        (codes "s1")
        (codes "#secret")
        (codes "north")
        (codes "Walk")
        []
        (codes "public")
        []
        (some true)
        false
        []).1).0
    ≡ 200
unfolding start_survey text_eq select_row create_survey_endpoint update_rows
walk_by_endpoints = refl
