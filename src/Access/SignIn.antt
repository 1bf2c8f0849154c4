-- ===== src/Access/SignIn.antt =====
-- LoginHandler of internal/api/handlers/auth.go, and the tenant that the requests with its token run
-- in. The expiry and issue times of the token are not read by the functions modelled here.
use openwrt_controller.Base.{
  ℕ, ◌<◌, Bool, true, false, ◌&&◌, ◌||◌, List, [], ◌++◌, Option, none, some, Text, codes, is_empty,
  text_eq, text_eq_refl, if◌then◌else◌, Result, ok, err, ◌>>=◌, >>=_ok, count_rows, select_row,
  select_row-holds, ◌≡◌, ◌⊎◌, refl, arith, inl, inr, Bool-cases, Option-cases, subst, sym, ◌∙◌,
}
use openwrt_controller.Access.Oldest.{select_row-count_by, oldest_active-is_active}
use openwrt_controller.Identity.{safe_tenant_schema}
use openwrt_controller.Access.Isolation.{tenant_named}
use openwrt_controller.AuthTickets.{Store}
use openwrt_controller.Access.{
  Claims, Web, Faults, Tenant, Request, Context, map_claims, with_auth, authenticate, bearer_login,
  bearer_token, parsed_login, header_alias, header_of, claimed_alias, default_alias, oldest_active,
  oldest_alias, enter_schema, enter_tenant, enter_login, is_active_alias, ticket_id,
  is_ssh_web_socket,
}

-- A row of `users`.
pub record User : Type 0 where
  pub username : Text
  pub password_hash : Text
  pub role : Option Text
  pub tenant_id : Option Text

-- How the queries of a login fail: the first one, with its deadline or otherwise, and that of the
-- tenant.
pub record LoginFaults : Type 0 where
  pub deadline_exceeded : Bool
  pub lookup_fails : Bool
  pub tenant_fails : Bool

-- bcrypt.CompareHashAndPassword, and SignedString on the claims.
pub record Signing : Type 0 where
  pub compare_hash_and_password : Text → Text → Bool
  pub signed_string : Claims → Option Text

abbrev pub is_user : Text → User → Bool
is_user name u = text_eq u.username name

-- `WHERE id = $1 AND is_active = true`.
unfoldable pub is_active_id : Text → Tenant → Bool
is_active_id id t = text_eq t.id id && t.is_active

-- The alias of the tenant that the user is bound to, empty if there is none.
unfoldable pub bound_alias : LoginFaults → List Tenant → Option Text → Text
unfolding is_active_id oldest_alias
bound_alias f tenants none = []
bound_alias f tenants (some id) =
    if f.tenant_fails then [] else oldest_alias (select_row (is_active_id id) tenants)

abbrev pub claims_of : Text → Text → Text → Claims
claims_of name role alias = record {
  sub = some name;
  role = some role;
  schema_alias = if is_empty alias then none else some alias;
}

sign : Option Text → Result ℕ Text
sign none = err 500
sign (some token) = ok token

check_user : Signing → LoginFaults → Text → Option User → Result ℕ (Text × Option Text)
check_user g f password none = err 401
check_user g f password (some u) = elim (u.role) [
  | none ↦ err 401
  | some role ↦
      if g.compare_hash_and_password u.password_hash password
      then ok (role, u.tenant_id)
      else err 401
]

find_user : Signing → LoginFaults → List User → Text → Text → Result ℕ (Text × Option Text)
unfolding check_user
find_user g f users name password =
    if f.deadline_exceeded
    then err 503
    else if f.lookup_fails
    then err 401
    else check_user g f password (select_row (is_user name) users)

-- A POST request with the decoded name and password: the status of a refusal, or the token.
unfoldable pub login_handler :
    Signing → LoginFaults → List User → List Tenant → Text → Text → Result ℕ Text
unfolding find_user sign bound_alias
login_handler g f users tenants name password =
    find_user g f users name password >>= λ (role, tenant_id).
    sign (g.signed_string (claims_of name role (bound_alias f tenants tenant_id)))

-- The claims of a token that a login hands out.
check_user-row :
    (g : Signing) (f : LoginFaults) (password : Text) (o : Option User) (role : Text)
    (tenant : Option Text)
    → check_user g f password o ≡ ok (role, tenant)
    → (u : User) × (o ≡ some u) × (u.role ≡ some role) × (tenant ≡ u.tenant_id)
unfolding check_user
check_user-row g f password none role tenant h = absurd (ground arith)
check_user-row g f password (some u) role tenant h =
    let both : (u.role ≡ some role) × (tenant ≡ u.tenant_id) = ground arith in
    (u, refl, both.0, both.1)

find_user-row :
    (g : Signing) (f : LoginFaults) (users : List User) (name password role : Text)
    (tenant : Option Text)
    → find_user g f users name password ≡ ok (role, tenant)
    → (u : User) × (select_row (is_user name) users ≡ some u)
      × (u.role ≡ some role)
      × (tenant ≡ u.tenant_id)
unfolding find_user
find_user-row g f users name password role tenant h =
    ground (arith, check_user-row g f password (select_row (is_user name) users) role tenant)

sign-ok : (o : Option Text) (token : Text) → sign o ≡ ok token → o ≡ some token
unfolding sign
sign-ok o token h = ground arith

login-claims :
    (g : Signing) (f : LoginFaults) (users : List User) (tenants : List Tenant)
    (name password token : Text)
    → login_handler g f users tenants name password ≡ ok token
    → (u : User) × (role : Text) × (select_row (is_user name) users ≡ some u)
      × (u.role ≡ some role)
      × (g.signed_string (claims_of name role (bound_alias f tenants u.tenant_id)) ≡ some token)
unfolding login_handler
login-claims g f users tenants name password token h =
    let ((role, tenant), found, signed) = >>=_ok (find_user g f users name password) _ token h in
    let (u, row, named, bound) = find_user-row g f users name password role tenant found in
    (
      u,
      role,
      row,
      named,
      subst (λ z. g.signed_string (claims_of name role (bound_alias f tenants z)) ≡ some token)
          bound (sign-ok _ token signed),
    )

-- A bearer request without a ticket and without a tenant header, off the SSH endpoint.
unfoldable pub IsPlain : Web → Text → Request → Type 0
IsPlain w token r =
    (r.authorization ≡ codes "Bearer " ++ token)
    × (is_empty (ticket_id w r) ≡ true)
    × (is_ssh_web_socket w r ≡ false)
    × (is_empty (w.trim_space r.tenant_header) ≡ true)

authenticate-plain :
    (w : Web) (now marked : ℕ) (r : Request) (s : Option Store) (token : Text) (c : Claims)
    → IsPlain w token r
    → is_empty token ≡ false
    → w.jwt_parse token ≡ map_claims c
    → (authenticate w now marked r s).0 ≡ ok (record { claims = c; ticket_alias = none })
unfolding authenticate IsPlain bearer_login bearer_token parsed_login
authenticate-plain w now marked r s token c (bearer, bare, off, header) full parsed =
    rw bare (rw off (rw bearer (rw full (rw parsed refl))))

-- The tenant that a login leads to: the active one that the user is bound to, or else the oldest
-- active one.
unfoldable pub landing_tenant : LoginFaults → List Tenant → Option Text → Option Tenant
landing_tenant f tenants none = oldest_active tenants
landing_tenant f tenants (some id) =
    if f.tenant_fails then oldest_active tenants else elim (select_row (is_active_id id) tenants) [
      | none ↦ oldest_active tenants
      | some t ↦ some t
    ]

landing_tenant-cases :
    (f : LoginFaults) (tenants : List Tenant) (b : Option Text) (t : Tenant)
    → landing_tenant f tenants b ≡ some t
    → ((bound_alias f tenants b ≡ t.schema_alias)
        × (0 < count_rows (is_active_alias t.schema_alias) tenants))
      ⊎ ((bound_alias f tenants b ≡ []) × (oldest_active tenants ≡ some t))
unfolding landing_tenant bound_alias oldest_alias is_active_id
landing_tenant-cases f tenants none t h = inr (refl, h)
landing_tenant-cases f tenants (some id) t h = elim (Bool-cases f.tenant_fails) [
  | inl lost ↦ rw lost (inr (refl, rw lost at h))
  | inr read ↦ elim (Option-cases (select_row (is_active_id id) tenants)) [
    | inl gone ↦ rw read (rw gone (inr (refl, rw gone at (rw read at h))))
    | inr (v, found) ↦
        let e : some v ≡ some t = (rw found at (rw read at h)) in
        let same : v ≡ t = cc in
        let row : select_row (is_active_id id) tenants ≡ some t = found ∙ e in
        let live = select_row-holds (is_active_id id) tenants t row in
        rw read (
          rw row (
            inl (
              refl,
              select_row-count_by (is_active_id id) _ tenants t row
                  (ground (arith, live, text_eq_refl t.schema_alias)),
            )))
  ]
]

-- The requests with the token of a user that name no tenant, enter the schema of one.
enter_landing :
    (w : Web) (lf : LoginFaults) (f : Faults) (tenants : List Tenant) (r : Request)
    (name role full : Text) (b : Option Text) (t : Tenant)
    → landing_tenant lf tenants b ≡ some t
    → safe_tenant_schema t.schema_alias ≡ ok full
    → w.trim_space t.schema_alias ≡ t.schema_alias
    → is_empty (w.trim_space r.tenant_header) ≡ true
    → (f.default_fails || (f.begin_fails || (f.count_fails || f.search_path_fails))) ≡ false
    → enter_login w f tenants r
        (record { claims = claims_of name role (bound_alias lf tenants b); ticket_alias = none })
      ≡ ok (record {
        claims = claims_of name role (bound_alias lf tenants b);
        tenant_schema = full;
        search_path = full ++ codes ", public";
      })
unfolding enter_login header_alias header_of claimed_alias default_alias oldest_alias enter_schema
    enter_tenant
enter_landing w lf f tenants r name role full b t land safe tidy bare calm =
    elim (landing_tenant-cases lf tenants b t land) [
      | inl (bound, live) ↦ rw bound (ground (arith, tenant_named t.schema_alias full safe))
      | inr (free, oldest) ↦ rw free (
          ground (
            arith,
            oldest,
            oldest_active-is_active tenants t oldest,
            tenant_named t.schema_alias full safe,
          ))
    ]

-- A login decides the tenant of the requests that follow it: with the token, no ticket, no tenant
-- header and off the SSH endpoint, they run in the schema of the active tenant that the user is
-- bound to, or, where the user is bound to none that is active or the query for it fails, in that of
-- the oldest active tenant. This holds where the token is parsed as what was signed, the alias is a
-- valid name without space around it, and the queries of the request succeed.
pub login_decides_the_tenant :
    (w : Web) (g : Signing) (lf : LoginFaults) (f : Faults) (users : List User)
    (tenants : List Tenant) (name password token : Text) (now marked : ℕ) (r : Request)
    (s : Option Store) (u : User) (t : Tenant) (full : Text)
    → ((c : Claims) (k : Text) → g.signed_string c ≡ some k → w.jwt_parse k ≡ map_claims c)
    → login_handler g lf users tenants name password ≡ ok token
    → select_row (is_user name) users ≡ some u
    → landing_tenant lf tenants u.tenant_id ≡ some t
    → safe_tenant_schema t.schema_alias ≡ ok full
    → w.trim_space t.schema_alias ≡ t.schema_alias
    → is_empty token ≡ false
    → IsPlain w token r
    → (f.default_fails || (f.begin_fails || (f.count_fails || f.search_path_fails))) ≡ false
    → (y : Context) × ((with_auth w f tenants now marked r s).0 ≡ ok y)
      × (y.tenant_schema ≡ full)
      × (y.claims.sub ≡ some name)
      × (y.claims.role ≡ u.role)
unfolding with_auth IsPlain
login_decides_the_tenant w g lf f users tenants name password token now marked r s u t full parses h
      row land safe tidy real plain calm =
    let (v, role, found, named, signed) = login-claims g lf users tenants name password token h in
    let same : v ≡ u = cc in
    let claims = claims_of name role (bound_alias lf tenants u.tenant_id) in
    let mine =
      subst
        (λ z.
          g.signed_string (claims_of name role (bound_alias lf tenants z.tenant_id)) ≡ some token)
        same signed in
    let login =
      authenticate-plain w now marked r s token claims plain real (parses claims token mine) in
    rw login (
      _,
      enter_landing w lf f tenants r name role full u.tenant_id t land safe tidy plain.3 calm,
      refl,
      refl,
      subst (λ z. some role ≡ z.role) same (sym named),
    )
