-- ===== src/Identity/Laws.antt =====
-- SafeTenantSchema and SafeSchemaIdent of internal/database/postgres.go together.
use openwrt_controller.Base.{[], ◌∷◌, Text, ok, ◌≡◌, arith}
use openwrt_controller.Identity.{
  is_valid_schema_name, safe_schema_ident, safe_tenant_schema, schema_char,
}

-- A schema name that SafeTenantSchema builds is one that SafeSchemaIdent accepts unchanged.
pub safe_tenant_schema-safe_schema_ident :
    (alias schema : Text)
    → safe_tenant_schema alias ≡ ok schema
    → safe_schema_ident schema ≡ ok schema
unfolding safe_tenant_schema safe_schema_ident is_valid_schema_name schema_char
safe_tenant_schema-safe_schema_ident [] schema h = ground arith
safe_tenant_schema-safe_schema_ident (c ∷ s) schema h = ground arith
