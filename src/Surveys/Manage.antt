-- ===== src/Surveys/Manage.antt =====
-- The endpoints that manage a survey: internal/api/handlers/surveys.go. `schema` is the request's
-- tenant schema and `rows` its surveys; an endpoint gives its status and the surveys after it.
use openwrt_controller.Base.{
  ℕ, Bool, false, not, List, Option, none, some, Text, codes, is_empty, text_eq, if◌then◌else◌, ◌≡◌,
  refl, arith,
}
use openwrt_controller.Surveys.{
  Survey, get_survey, create_survey, delete_survey, set_survey_token, set_survey_status,
  revoke_survey_token,
}
use openwrt_controller.Surveys.Handlers.{SurveyWeb, role_at_least}

abbrev pub mode_of : SurveyWeb → Text → Text
mode_of w mode =
    let m = w.to_lower (w.trim_space mode) in if is_empty m then codes "authenticated" else m

-- The checks of a public survey: the status of the refusal. `allowed` is
-- GetSiteConfigAllowPublicSurveys, none where it fails.
unfoldable pub public_refusal : Option Bool → Bool → Option ℕ
public_refusal none lockdown = some 500
public_refusal (some allowed) lockdown =
    if not allowed then some 403 else if lockdown then some 403 else none

-- CreateSurveyHandler; `id` is the new UUID and `hash` that of the new token.
unfoldable pub create_survey_endpoint :
    SurveyWeb
    → Text
    → Text
    → ℕ
    → Text
    → Text
    → Text
    → Text
    → Text
    → Text
    → Text
    → Option Bool
    → Bool
    → List Survey
    → ℕ × List Survey
unfolding create_survey set_survey_token public_refusal role_at_least
create_survey_endpoint w schema role now id hash site name label mode user allowed lockdown rows =
    let access = mode_of w mode in
    let created = create_survey now id site name label access user rows in
    if is_empty schema
    then (500, rows)
    else if not (role_at_least w role (codes "OPERATOR"))
    then (403, rows)
    else if text_eq access (codes "authenticated")
    then (201, created)
    else if not (text_eq access (codes "public"))
    then (400, rows)
    else public_answer (public_refusal allowed lockdown) (set_survey_token now id hash created)
  where
    public_answer : Option ℕ → List Survey → ℕ × List Survey
    public_answer none after = (201, after)
    public_answer (some status) after = (status, rows)

abbrev pub if_found : Option Survey → List Survey → ℕ × List Survey → ℕ × List Survey
if_found none rows answer = (404, rows)
if_found (some s) rows answer = answer

-- StartSurveyHandler and StopSurveyHandler: the status is "active" or "completed".
unfoldable pub move_survey :
    Text → SurveyWeb → Text → Text → ℕ → Text → List Survey → ℕ × List Survey
unfolding role_at_least get_survey set_survey_status
move_survey status w schema role now id rows =
    if is_empty schema
    then (500, rows)
    else if not (role_at_least w role (codes "OPERATOR"))
    then (403, rows)
    else if_found (get_survey id rows) rows (200, set_survey_status now id status rows)

unfoldable pub start_survey : SurveyWeb → Text → Text → ℕ → Text → List Survey → ℕ × List Survey
unfolding move_survey
start_survey = move_survey (codes "active")

unfoldable pub stop_survey : SurveyWeb → Text → Text → ℕ → Text → List Survey → ℕ × List Survey
unfolding move_survey
stop_survey = move_survey (codes "completed")

-- DeleteSurveyHandler.
unfoldable pub delete_survey_endpoint :
    SurveyWeb → Text → Text → Text → List Survey → ℕ × List Survey
unfolding role_at_least delete_survey
delete_survey_endpoint w schema role id rows =
    if is_empty schema
    then (500, rows)
    else if not (role_at_least w role (codes "ADMIN"))
    then (403, rows)
    else (204, delete_survey id rows)

-- GetSurvey in the request's schema: without a schema the statement fails.
abbrev pub survey_of_schema : Text → Text → List Survey → Option Survey
survey_of_schema schema id rows = if is_empty schema then none else get_survey id rows

abbrev pub if_public : Option Survey → List Survey → ℕ × List Survey → ℕ × List Survey
if_public none rows answer = (404, rows)
if_public (some s) rows answer =
    if text_eq s.access_mode (codes "public") then answer else (400, rows)

-- RotateSurveyTokenHandler.
unfoldable pub rotate_survey_token :
    SurveyWeb → Text → Text → ℕ → Text → Text → List Survey → ℕ × List Survey
unfolding role_at_least get_survey set_survey_token
rotate_survey_token w schema role now id hash rows =
    if not (role_at_least w role (codes "ADMIN"))
    then (403, rows)
    else if_public (survey_of_schema schema id rows) rows (200, set_survey_token now id hash rows)

-- RevokeSurveyTokenHandler.
unfoldable pub revoke_survey_token_endpoint :
    SurveyWeb → Text → Text → ℕ → Text → List Survey → ℕ × List Survey
unfolding role_at_least get_survey revoke_survey_token
revoke_survey_token_endpoint w schema role now id rows =
    if not (role_at_least w role (codes "ADMIN"))
    then (403, rows)
    else if_found (survey_of_schema schema id rows) rows (204, revoke_survey_token now id rows)

-- A role under ADMIN cannot delete a survey nor rotate or revoke its token.
only_admins_manage_tokens :
    (w : SurveyWeb) (schema role : Text) (now : ℕ) (id hash : Text) (rows : List Survey)
    → role_at_least w role (codes "ADMIN") ≡ false
    → ((delete_survey_endpoint w schema role id rows).1 ≡ rows)
      × (rotate_survey_token w schema role now id hash rows ≡ (403, rows))
      × (revoke_survey_token_endpoint w schema role now id rows ≡ (403, rows))
unfolding delete_survey_endpoint rotate_survey_token revoke_survey_token_endpoint
only_admins_manage_tokens w schema role now id hash rows h = rw h (ground arith, refl, refl)
