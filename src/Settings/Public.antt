-- ===== src/Settings/Public.antt =====
-- The settings that are shown without a login. Models get_public_settings of
-- backend/app/services/settings_service.py, and what it keeps back.
use metasight.Prelude.{
  Option, String, arith, eq_iff, eq_of_ne, nat_eq, none, refl, some, string_eq, text_eq, true, ◌==◌,
  ◌≡◌, ◌≢◌,
}
use metasight.Json.{
  Fields, Json, end, field, insert_field, lookup_field, lookup_field-insert_field, null, obj,
  section, text,
}

-- `cfg[name][key]`; a missing key or a section that is no dictionary is an error, `none`.

unfoldable pub required : String → String → Fields → Option Json
required name key cfg = elim (lookup_field name cfg) [
  | some (obj fs) ↦ lookup_field key fs
  | _ ↦ none
]

-- `branding.get(key, default)`.
abbrev pub shown_or : Json → Option Json → Json
shown_or default none = default
shown_or default (some v) = v

-- The answer from the values that are read.
unfoldable pub public_from :
    Fields
    → Option Json
    → Option Json
    → Option Json
    → Option Json
    → Option Json
    → Option Json
    → Option Fields
public_from branding (some min_length) (some uppercase) (some number) (some special) (some enabled)
      (some provider) =
    some (
      field "platform_name" (shown_or (text "MetaSight") (lookup_field "platform_name" branding)) (
        field "tagline"
          (shown_or (text "Database Governance Platform") (lookup_field "tagline" branding))
          (field "logo_url" (shown_or null (lookup_field "logo_url" branding)) (
            field "primary_color"
              (shown_or (text "#818CF8") (lookup_field "primary_color" branding))
              (field "accent_color"
                (shown_or (text "#38BDF8") (lookup_field "accent_color" branding))
                (field "support_email" (shown_or null (lookup_field "support_email" branding)) (
                  field "docs_url" (shown_or null (lookup_field "docs_url" branding)) (
                    field "password_min_length" min_length (
                      field "password_require_uppercase" uppercase (
                        field "password_require_number" number (
                          field "password_require_special" special (
                            field "sso_enabled" enabled
                              (field "sso_provider_name" provider end)))))))))))))
public_from branding _ _ _ _ _ _ = none

unfoldable pub get_public_settings : Fields → Option Fields
get_public_settings cfg =
    public_from (section "branding" cfg) (required "security" "password_min_length" cfg)
      (required "security" "password_require_uppercase" cfg)
      (required "security" "password_require_number" cfg)
      (required "security" "password_require_special" cfg) (required "sso" "enabled" cfg)
      (required "sso" "provider_name" cfg)

section-other :
    (name other : String) (v : Json) (cfg : Fields)
    → other ≢ name
    → section name (insert_field other v cfg) ≡ section name cfg
unfolding section
section-other name other v cfg apart =
    rw (section, lookup_field-insert_field other name v cfg, eq_of_ne other name apart) refl

required-other :
    (name key other : String) (v : Json) (cfg : Fields)
    → other ≢ name
    → required name key (insert_field other v cfg) ≡ required name key cfg
unfolding required
required-other name key other v cfg apart =
    rw (required, lookup_field-insert_field other name v cfg, eq_of_ne other name apart) refl

required-own :
    (name key k : String) (v : Json) (fs cfg : Fields)
    → lookup_field name cfg ≡ some (obj fs)
    → k ≢ key
    → required name key (insert_field name (obj (insert_field k v fs)) cfg) ≡ required name key cfg
unfolding required
required-own name key k v fs cfg here apart =
    let itself : (name == name) ≡ true = ground (arith, eq_iff name name) in
    rw
      (
        required,
        lookup_field-insert_field name name (obj (insert_field k v fs)) cfg,
        itself,
        here,
        lookup_field-insert_field k key v fs,
        eq_of_ne k key apart,
      )
      refl

-- Configurations that agree in what is read have the same public settings.
public_agree :
    (cfg cfg' : Fields)
    → section "branding" cfg ≡ section "branding" cfg'
    → ((key : String) → required "security" key cfg ≡ required "security" key cfg')
    → required "sso" "enabled" cfg ≡ required "sso" "enabled" cfg'
    → required "sso" "provider_name" cfg ≡ required "sso" "provider_name" cfg'
    → get_public_settings cfg ≡ get_public_settings cfg'
unfolding get_public_settings
public_agree cfg cfg' b s e p =
    let s₁ = s "password_min_length" in
    let s₂ = s "password_require_uppercase" in
    let s₃ = s "password_require_number" in
    let s₄ = s "password_require_special" in rw (get_public_settings, b, s₁, s₂, s₃, s₄, e, p) refl

-- The public settings do not depend on what the section `sso` holds beside the switch and the name of
-- the provider, the client's secret for one, nor on any section but `branding`, `security` and `sso`.
pub get_public_settings_lem :
    (cfg sso : Fields) (k other : String) (v w : Json)
    → lookup_field "sso" cfg ≡ some (obj sso)
    → k ≢ "enabled"
    → k ≢ "provider_name"
    → other ≢ "branding"
    → other ≢ "security"
    → other ≢ "sso"
    → (get_public_settings (insert_field "sso" (obj (insert_field k v sso)) cfg)
        ≡ get_public_settings cfg)
      × (get_public_settings (insert_field other w cfg) ≡ get_public_settings cfg)
get_public_settings_lem cfg sso k other v w here e p b s o =
    let new = obj (insert_field k v sso) in
    (
      public_agree (insert_field "sso" new cfg) cfg
          (section-other "branding" "sso" new cfg (ground (arith, eq_iff "sso" "branding")))
          (λ key.
            required-other "security" key "sso" new cfg (ground (arith, eq_iff "sso" "security")))
          (required-own "sso" "enabled" k v sso cfg here e)
          (required-own "sso" "provider_name" k v sso cfg here p),
      public_agree (insert_field other w cfg) cfg (section-other "branding" other w cfg b)
          (λ key. required-other "security" key other w cfg s)
          (required-other "sso" "enabled" other w cfg o)
          (required-other "sso" "provider_name" other w cfg o),
    )
