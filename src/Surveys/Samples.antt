-- ===== src/Surveys/Samples.antt =====
-- What PostSurveySampleHandler (internal/api/handlers/surveys.go) answers.
use openwrt_controller.Base.{
  ℕ, ◌+◌, ◌*◌, ◌≤◌, Bool, true, false, not, List, [], ◌∷◌, Option, none, some, Text, codes,
  is_empty, ltb, text_eq, if◌then◌else◌, Result, ok, err, ◌>>◌, fail_if, select_row, ◌≡◌, refl,
  arith,
}
use openwrt_controller.Surveys.{Survey, is_survey, get_survey, selected}
use openwrt_controller.Surveys.Handlers.{
  SurveyTenant, LookupEntry, SurveyState, SurveyWeb, Sample, second, survey_allow, bucket_of,
  cached, survey_in, first_some, with_tenant, enter_cache, or_scan, accept, scan_tenants,
  cached_survey, schema_of, set_entry, find_survey_across_tenants, admit_sample, post_survey_sample,
}

-- A lookup that finds no survey with a token hash.
NoHash : Option (Survey × SurveyTenant) → Type 0
NoHash none = Unit
NoHash (some (s, t)) = s.survey_token_hash ≡ none

get_survey-hash :
    (id : Text) (rows : List Survey) (s : Survey)
    → get_survey id rows ≡ some s
    → s.survey_token_hash ≡ none
unfolding get_survey
get_survey-hash id rows s h = selected_hash (select_row (is_survey id) rows) s h
  where
    selected_hash :
        (o : Option Survey) (s : Survey) → selected o ≡ some s → s.survey_token_hash ≡ none
    selected_hash none s h = absurd (ground arith)
    selected_hash (some x) s h = ground arith

with_tenant-NoHash :
    (t : SurveyTenant) (o : Option Survey)
    → ((s : Survey) → o ≡ some s → s.survey_token_hash ≡ none)
    → NoHash (with_tenant t o)
unfolding NoHash
with_tenant-NoHash t none h = tt
with_tenant-NoHash t (some s) h = h s refl

get_survey-NoHash :
    (id : Text) (t : SurveyTenant) → NoHash (with_tenant t (get_survey id t.surveys))
get_survey-NoHash id t =
    with_tenant-NoHash t (get_survey id t.surveys) (get_survey-hash id t.surveys)

if-NoHash :
    (b : Bool) (o p : Option (Survey × SurveyTenant))
    → NoHash o
    → NoHash p
    → NoHash (if b then o else p)
if-NoHash true o p h k = h
if-NoHash false o p h k = k

first_some-NoHash :
    (o p : Option (Survey × SurveyTenant)) → NoHash o → NoHash p → NoHash (first_some o p)
first_some-NoHash none p h k = k
first_some-NoHash (some x) p h k = h

survey_in-NoHash : (schema id : Text) (ts : List SurveyTenant) → NoHash (survey_in schema id ts)
unfolding survey_in NoHash
survey_in-NoHash schema id [] = tt
survey_in-NoHash schema id (t ∷ ts) =
    if-NoHash (text_eq (schema_of t) schema) _ _ (get_survey-NoHash id t)
      (survey_in-NoHash schema id ts)

scan_tenants-NoHash : (id : Text) (ts : List SurveyTenant) → NoHash (scan_tenants id ts)
unfolding scan_tenants NoHash
scan_tenants-NoHash id [] = tt
scan_tenants-NoHash id (t ∷ ts) =
    if-NoHash t.is_active _ _
      (first_some-NoHash _ _ (get_survey-NoHash id t) (scan_tenants-NoHash id ts))
      (scan_tenants-NoHash id ts)

cached_survey-NoHash :
    (now : ℕ) (id : Text) (e : Option LookupEntry) (ts : List SurveyTenant)
    → NoHash (cached_survey now id e ts)
unfolding cached_survey NoHash
cached_survey-NoHash now id none ts = tt
cached_survey-NoHash now id (some e) ts =
    if-NoHash (ltb now (e.at + (300 * second))) _ _ (survey_in-NoHash e.schema id ts) tt

find_survey_across_tenants-NoHash :
    (now : ℕ) (id : Text) (st : SurveyState) → NoHash (find_survey_across_tenants now id st).0
unfolding find_survey_across_tenants
find_survey_across_tenants-NoHash now id st =
    or_scan-NoHash _ _ (cached_survey-NoHash now id (cached id st.cache) st.tenants)
  where
    or_scan-NoHash :
        (o : Option (Survey × SurveyTenant)) (x : SurveyState)
        → NoHash o
        → NoHash (or_scan o st (scan_tenants id st.tenants, x)).0
    or_scan-NoHash none x h = scan_tenants-NoHash id st.tenants
    or_scan-NoHash (some y) x h = h

enter_cache-tenants :
    (now : ℕ) (id : Text) (o : Option (Survey × SurveyTenant)) (st : SurveyState)
    → (enter_cache now id o st).tenants ≡ st.tenants
enter_cache-tenants now id none st = refl
enter_cache-tenants now id (some (s, t)) st = refl

find_survey_across_tenants-tenants :
    (now : ℕ) (id : Text) (st : SurveyState)
    → (find_survey_across_tenants now id st).1.tenants ≡ st.tenants
unfolding find_survey_across_tenants
find_survey_across_tenants-tenants now id st =
    kept (cached_survey now id (cached id st.cache) st.tenants)
  where
    kept :
        (o : Option (Survey × SurveyTenant))
        → (or_scan o st (
          scan_tenants id st.tenants,
          enter_cache now id (scan_tenants id st.tenants) st,
        )).1.tenants
          ≡ st.tenants
    kept none = enter_cache-tenants now id (scan_tenants id st.tenants) st
    kept (some x) = refl

-- An answer that refuses a sample: a status from 400 to 429, with the surveys as they were.
pub IsRefused : List SurveyTenant → ℕ × SurveyState → Type 0
IsRefused ts a = (400 ≤ a.0) × (a.0 ≤ 429) × (a.1.tenants ≡ ts)

fail_if-same : (b : Bool) (e : ℕ) → Path (Result ℕ SurveyTenant) (fail_if b e >> err e) (err e)
fail_if-same true e = refl
fail_if-same false e = refl

refuse_if :
    (ts : List SurveyTenant) (b : Bool) (a c : ℕ × SurveyState)
    → IsRefused ts a
    → IsRefused ts c
    → IsRefused ts (if b then a else c)
refuse_if ts true a c h k = h
refuse_if ts false a c h k = k

admit_sample-refuses :
    (w : SurveyWeb) (lockdown : Bool) (r : Sample) (o : Option (Survey × SurveyTenant))
    → NoHash o
    → (status : ℕ) × (admit_sample w lockdown r o ≡ err status) × (401 ≤ status) × (status ≤ 404)
unfolding NoHash admit_sample
admit_sample-refuses w lockdown r none h = (404, refl, omega arith, omega arith)
admit_sample-refuses w lockdown r (some (s, t)) h =
    rw h (
      401,
      fail_if-same (not (text_eq s.access_mode (codes "public"))) 401,
      omega arith,
      omega arith,
    )

accept-IsRefused :
    (w : SurveyWeb) (now : ℕ) (r : Sample) (st : SurveyState) (a : Result ℕ SurveyTenant)
    (ts : List SurveyTenant)
    → ((status : ℕ) × (a ≡ err status) × (401 ≤ status) × (status ≤ 404))
    → st.tenants ≡ ts
    → IsRefused ts (accept w now r st a)
unfolding IsRefused
accept-IsRefused w now r st (ok t) ts (n, e, l, u) h = absurd (ground arith)
accept-IsRefused w now r st (err m) ts (n, e, l, u) h = (ground arith, ground arith, h)

looked_up-IsRefused :
    (w : SurveyWeb) (now : ℕ) (r : Sample) (st : SurveyState)
    → IsRefused st.tenants (
        accept w now r (find_survey_across_tenants now r.id st).1 (
          admit_sample w
            (find_survey_across_tenants now r.id st).1.lockdown
            r
            (find_survey_across_tenants now r.id st).0))
looked_up-IsRefused w now r st =
    accept-IsRefused w now r _ _ _
      (admit_sample-refuses w _ r _ (find_survey_across_tenants-NoHash now r.id st))
      (find_survey_across_tenants-tenants now r.id st)

refused : (low : ℕ) (st : SurveyState) → 400 ≤ low → low ≤ 429 → IsRefused st.tenants (low, st)
unfolding IsRefused
refused low st h k = (h, k, refl)

-- No sample is accepted: whatever the request, the tenants with their surveys and the time, the
-- endpoint answers a status from 400 to 429 and leaves the tenants and their surveys as they are.
pub no_sample_is_accepted :
    (w : SurveyWeb) (now : ℕ) (r : Sample) (st : SurveyState)
    → IsRefused st.tenants (post_survey_sample w now r st)
unfolding post_survey_sample
no_sample_is_accepted w now r st =
    refuse_if _ (is_empty r.id) _ _ (refused 400 st (omega arith) (omega arith)) (
      refuse_if _ (not limit.0) _ _ (refused 429 next (omega arith) (omega arith)) (
        refuse_if _ (is_empty r.token) _ _ (refused 401 next (omega arith) (omega arith))
          (looked_up-IsRefused w now r next)))
  where
    limit : Bool × List ℕ
    limit = survey_allow now (bucket_of r.id st.buckets)

    next : SurveyState
    next = record st { buckets = set_entry r.id limit.1 st.buckets }
