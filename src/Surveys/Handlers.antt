-- ===== src/Surveys/Handlers.antt =====
-- The survey endpoints: internal/api/handlers/surveys.go. An endpoint gives the status that it
-- answers with and the tables after it.
use openwrt_controller.Base.{
  ℕ, ◌+◌, ◌*◌, Bool, true, false, not, ◌||◌, List, [], ◌∷◌, ◌++◌, Option, none, some, Text, codes,
  is_empty, length, ltb, leb, text_eq, if◌then◌else◌, Result, ok, err, ◌>>◌, fail_if, map,
}
use openwrt_controller.Surveys.{Survey, get_survey, set_survey_token_first_use}

-- A tenant with its surveys, and the sites whose configuration allows public surveys.
pub record SurveyTenant : Type 0 where
  pub schema_alias : Text
  pub is_active : Bool
  pub surveys : List Survey
  pub public_sites : List Text

-- An entry of `surveyLookupCache`.
pub record LookupEntry : Type 0 where
  pub schema : Text
  pub at : ℕ

-- The tenants, the platform's lockdown switch, the lookup cache and the rate-limit buckets.
pub record SurveyState : Type 0 where
  pub tenants : List SurveyTenant
  pub lockdown : Bool
  pub cache : List (Text × LookupEntry)
  pub buckets : List (Text × List ℕ)

-- strings.ToUpper, strings.ToLower, strings.TrimSpace, the hexadecimal SHA-256, whether PostgreSQL reads a text as an INET, and
-- json.Unmarshal of a sample: none where it fails, else whether the coordinates are in range.
pub record SurveyWeb : Type 0 where
  pub to_upper : Text → Text
  pub to_lower : Text → Text
  pub trim_space : Text → Text
  pub sha256_hex : Text → Text
  pub is_inet : Text → Bool
  pub coordinates : Text → Option Bool

-- What a request with a sample carries; `ip` and `agent` are its clientFingerprint.
pub record Sample : Type 0 where
  pub id : Text
  pub token : Text
  pub body : Text
  pub ip : Text
  pub agent : Text

-- The rank of a role, if it has one.
unfoldable pub role_rank : Text → Option ℕ
role_rank role =
    if text_eq role (codes "VIEWER")
    then some 0
    else if text_eq role (codes "OPERATOR")
    then some 1
    else if text_eq role (codes "ADMIN")
    then some 2
    else if text_eq role (codes "SUPERADMIN")
    then some 3
    else none

abbrev pub ranks_over : Option ℕ → Option ℕ → Bool
ranks_over (some a) (some b) = leb b a
ranks_over _ _ = false

unfoldable pub role_at_least : SurveyWeb → Text → Text → Bool
unfolding role_rank
role_at_least w role min = ranks_over (role_rank (w.to_upper role)) (role_rank (w.to_upper min))

-- `surveyRateLimitPerSecond`, and a second in nanoseconds.
abbrev pub survey_rate_limit : ℕ
survey_rate_limit = 10

abbrev pub second : ℕ
second = 1000000000

-- The events of the last second: those from the first that is after the cutoff.
unfoldable pub drop_older : ℕ → List ℕ → List ℕ
drop_older now [] = []
drop_older now (e ∷ es) =
    let rest = drop_older now es in if ltb now (e + second) then e ∷ es else rest

-- surveyAllow, on the events of one bucket: whether the request may go on, and the events after it.
unfoldable pub survey_allow : ℕ → List ℕ → Bool × List ℕ
unfolding drop_older
survey_allow now events =
    let recent = drop_older now events in
    if leb survey_rate_limit (length recent) then (false, recent) else (true, recent ++ (now ∷ []))

unfoldable pub bucket_of : Text → List (Text × List ℕ) → List ℕ
bucket_of id [] = []
bucket_of id ((k, es) ∷ bs) = if text_eq k id then es else bucket_of id bs

unfoldable pub cached : Text → List (Text × LookupEntry) → Option LookupEntry
cached id [] = none
cached id ((k, e) ∷ m) = if text_eq k id then some e else cached id m

abbrev pub with_tenant : SurveyTenant → Option Survey → Option (Survey × SurveyTenant)
with_tenant t none = none
with_tenant t (some s) = some (s, t)

-- GetSurvey in a schema that is named "tenant_" and an alias.
unfoldable pub survey_in : Text → Text → List SurveyTenant → Option (Survey × SurveyTenant)
survey_in schema id [] = none
survey_in schema id (t ∷ ts) =
    let rest = survey_in schema id ts in
    if text_eq (codes "tenant_" ++ t.schema_alias) schema
    then with_tenant t (get_survey id t.surveys)
    else rest

abbrev pub first_some {ℓ} : {A : Type ℓ} → Option A → Option A → Option A
first_some none o = o
first_some (some a) o = some a

-- The scan of findSurveyAcrossTenants over the active tenants.
unfoldable pub scan_tenants : Text → List SurveyTenant → Option (Survey × SurveyTenant)
scan_tenants id [] = none
scan_tenants id (t ∷ ts) =
    let rest = scan_tenants id ts in
    if t.is_active then first_some (with_tenant t (get_survey id t.surveys)) rest else rest

-- An entry is used for five minutes.
unfoldable pub cached_survey :
    ℕ → Text → Option LookupEntry → List SurveyTenant → Option (Survey × SurveyTenant)
unfolding survey_in
cached_survey now id none ts = none
cached_survey now id (some e) ts =
    if ltb now (e.at + (300 * second)) then survey_in e.schema id ts else none

abbrev pub schema_of : SurveyTenant → Text
schema_of t = codes "tenant_" ++ t.schema_alias

abbrev pub set_entry {ℓ} : {A : Type ℓ} → Text → A → List (Text × A) → List (Text × A)
set_entry k a [] = (k, a) ∷ []
set_entry k a ((k2, b) ∷ m) = if text_eq k2 k then (k, a) ∷ m else (k2, b) ∷ set_entry k a m

abbrev pub enter_cache : ℕ → Text → Option (Survey × SurveyTenant) → SurveyState → SurveyState
enter_cache now id none st = st
enter_cache now id (some (s, t)) st = record st {
  cache = set_entry id (record { schema = schema_of t; at = now }) st.cache;
}

abbrev pub or_scan :
    Option (Survey × SurveyTenant)
    → SurveyState
    → Option (Survey × SurveyTenant) × SurveyState
    → Option (Survey × SurveyTenant) × SurveyState
or_scan none st scanned = scanned
or_scan (some x) st scanned = (some x, st)

-- findSurveyAcrossTenants; a survey that the scan found is entered in the cache.
unfoldable pub find_survey_across_tenants :
    ℕ → Text → SurveyState → Option (Survey × SurveyTenant) × SurveyState
unfolding cached_survey scan_tenants cached
find_survey_across_tenants now id st =
    let scanned = scan_tenants id st.tenants in
    or_scan (cached_survey now id (cached id st.cache) st.tenants) st
      (scanned, enter_cache now id scanned st)

abbrev pub hash_text : Option Text → Text
hash_text none = []
hash_text (some h) = h

abbrev pub is_set {ℓ} : {A : Type ℓ} → Option A → Bool
is_set none = false
is_set (some a) = true

-- GetSiteConfigAllowPublicSurveys, whose errors the endpoint takes for false.
unfoldable pub site_allows : Text → List Text → Bool
site_allows site [] = false
site_allows site (x ∷ xs) = text_eq x site || site_allows site xs

abbrev pub body_error : Text → Option Bool → Bool
body_error body none = true
body_error body (some in_range) = is_empty body || not in_range

-- What PostSurveySampleHandler checks of the survey that it found, in its order: the tenant in which
-- the sample is accepted, or the status of the refusal.
unfoldable pub admit_sample :
    SurveyWeb → Bool → Sample → Option (Survey × SurveyTenant) → Result ℕ SurveyTenant
unfolding site_allows
admit_sample w lockdown r none = err 404
admit_sample w lockdown r (some (s, t)) =
    fail_if (not (text_eq s.access_mode (codes "public"))) 401
    >> (fail_if (is_empty (hash_text s.survey_token_hash)) 401
        >> (fail_if (not (text_eq (w.sha256_hex r.token) (hash_text s.survey_token_hash))) 401
            >> (fail_if (is_set s.token_revoked_at) 401
                >> (fail_if
                      (text_eq s.status (codes "completed") || text_eq s.status (codes "aborted"))
                      410
                    >> (fail_if (not (site_allows s.site_id t.public_sites)) 403
                        >> (fail_if lockdown 403
                            >> (fail_if (body_error r.body (w.coordinates r.body)) 400
                                >> ok t)))))))

abbrev pub record_first_use : SurveyWeb → ℕ → Sample → Text → SurveyTenant → SurveyTenant
unfolding set_survey_token_first_use
record_first_use w now r schema t =
    if text_eq (schema_of t) schema
    then record t { surveys = set_survey_token_first_use w.is_inet now r.id r.ip r.agent t.surveys }
    else t

abbrev pub accept : SurveyWeb → ℕ → Sample → SurveyState → Result ℕ SurveyTenant → ℕ × SurveyState
accept w now r st (err status) = (status, st)
accept w now r st (ok t) =
    (202, record st { tenants = map (record_first_use w now r (schema_of t)) st.tenants })

-- PostSurveySampleHandler.
unfoldable pub post_survey_sample : SurveyWeb → ℕ → Sample → SurveyState → ℕ × SurveyState
unfolding survey_allow bucket_of find_survey_across_tenants admit_sample
post_survey_sample w now r st =
    let limit = survey_allow now (bucket_of r.id st.buckets) in
    let next = record st { buckets = set_entry r.id limit.1 st.buckets } in
    let found = find_survey_across_tenants now r.id next in
    if is_empty r.id
    then (400, st)
    else if not limit.0
    then (429, next)
    else if is_empty r.token
    then (401, next)
    else accept w now r found.1 (admit_sample w found.1.lockdown r found.0)
