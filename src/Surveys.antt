-- ===== src/Surveys.antt =====
-- The Wi-Fi surveys: internal/database/surveys.go. A table is the list of its rows, and
-- CURRENT_TIMESTAMP is an argument; the points of a survey are not modelled.
pub mod Handlers
pub mod Manage
pub mod Samples
use openwrt_controller.Base.{
  ℕ, Bool, true, false, not, ◌&&◌, ◌||◌, List, [], ◌∷◌, ◌++◌, Option, none, some, Text, codes,
  is_empty, leb, text_eq, if◌then◌else◌, ℤ, pos, negsuc, update_rows, select_row,
}

-- A row of `wifi_surveys`; its column surveyor_mac, which no statement writes, is left out.
pub record Survey : Type 0 where
  pub id : Text
  pub site_id : Text
  pub name : Text
  pub surveyor_label : Option Text
  pub status : Text
  pub access_mode : Text
  pub survey_token_hash : Option Text
  pub token_first_used_at : Option ℕ
  pub token_first_ip : Option Text
  pub token_first_ua : Option Text
  pub token_revoked_at : Option ℕ
  pub token_rotated_at : Option ℕ
  pub started_at : Option ℕ
  pub ended_at : Option ℕ
  pub created_by : Option Text
  pub created_at : ℕ
  pub updated_at : ℕ

abbrev pub is_survey : Text → Survey → Bool
is_survey id s = text_eq s.id id

-- COALESCE(column, value), also where it is written as a CASE.
abbrev pub coalesce {ℓ} : {A : Type ℓ} → Option A → A → Option A
coalesce none a = some a
coalesce (some b) a = some b

-- `nullString`.
abbrev pub null_string : Text → Option Text
null_string s = if is_empty s then none else some s

-- The columns that GetSurvey selects: the Survey has no token hash.
abbrev pub selected : Option Survey → Option Survey
selected none = none
selected (some s) = some (record s { survey_token_hash = none })

unfoldable pub get_survey : Text → List Survey → Option Survey
get_survey id rows = selected (select_row (is_survey id) rows)

-- CreateSurvey; `id` is the new UUID.
unfoldable pub create_survey :
    ℕ → Text → Text → Text → Text → Text → Text → List Survey → List Survey
create_survey now id site name label mode created_by rows =
    rows
    ++ (record {
      id = id;
      site_id = site;
      name = name;
      surveyor_label = null_string label;
      status = codes "pending";
      access_mode = if is_empty mode then codes "authenticated" else mode;
      survey_token_hash = none;
      token_first_used_at = none;
      token_first_ip = none;
      token_first_ua = none;
      token_revoked_at = none;
      token_rotated_at = none;
      started_at = none;
      ended_at = none;
      created_by = null_string created_by;
      created_at = now;
      updated_at = now;
    }
        ∷ [])

unfoldable pub delete_survey : Text → List Survey → List Survey
delete_survey id [] = []
delete_survey id (s ∷ rows) =
    let rest = delete_survey id rows in if is_survey id s then rest else s ∷ rest

unfoldable pub set_survey_token : ℕ → Text → Text → List Survey → List Survey
set_survey_token now id hash rows =
    update_rows (is_survey id)
      (λ s. record s {
        survey_token_hash = some hash;
        token_rotated_at = coalesce s.token_rotated_at now;
        updated_at = now;
      })
      rows

-- One row under SetSurveyStatus: three forms of the UPDATE.
unfoldable pub status_row : ℕ → Text → Survey → Survey
status_row now status s =
    if text_eq status (codes "active")
    then record s { status = status; started_at = coalesce s.started_at now; updated_at = now }
    else if text_eq status (codes "completed") || text_eq status (codes "aborted")
    then record s { status = status; ended_at = coalesce s.ended_at now; updated_at = now }
    else record s { status = status; updated_at = now }

unfoldable pub set_survey_status : ℕ → Text → Text → List Survey → List Survey
unfolding status_row
set_survey_status now id status rows = update_rows (is_survey id) (status_row now status) rows

-- `$2::inet` fails on a text that is no address: then the statement changes nothing.
unfoldable pub set_survey_token_first_use :
    (Text → Bool) → ℕ → Text → Text → Text → List Survey → List Survey
set_survey_token_first_use is_inet now id ip ua rows =
    if not (is_inet ip)
    then rows
    else update_rows (is_survey id)
        (λ s. record s {
          token_first_used_at = coalesce s.token_first_used_at now;
          token_first_ip = coalesce s.token_first_ip ip;
          token_first_ua = coalesce s.token_first_ua ua;
          updated_at = now;
        })
        rows

unfoldable pub revoke_survey_token : ℕ → Text → List Survey → List Survey
revoke_survey_token now id rows =
    update_rows (is_survey id) (λ s. record s { token_revoked_at = some now; updated_at = now })
      rows

-- The limit that GetSurveyPoints asks for.
unfoldable pub points_limit : ℤ → ℕ
points_limit (negsuc n) = 5000
points_limit (pos n) = if leb n 0 || not (leb n 10000) then 5000 else n
