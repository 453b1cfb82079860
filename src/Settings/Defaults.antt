-- ===== src/Settings/Defaults.antt =====
-- The platform's default settings.
-- Models DEFAULT_SETTINGS of backend/app/services/settings_service.py.
use metasight.Prelude.{false, true}
use metasight.Json.{Fields, arr, bool, cons, end, field, nil, null, num, obj, text}

abbrev pub branding_defaults : Fields
branding_defaults = field "platform_name" (text "MetaSight") (
    field "tagline" (text "Database Governance Platform") (
      field "logo_url" null (
        field "primary_color" (text "#818CF8") (
          field "accent_color" (text "#38BDF8")
            (field "support_email" null (field "docs_url" null end))))))

abbrev pub security_defaults : Fields
security_defaults = field "session_timeout_minutes" (num 1440) (
    field "max_login_attempts" (num 5) (
      field "lockout_duration_minutes" (num 30) (
        field "ip_allowlist" (arr nil) (
          field "require_mfa" (bool false) (
            field "password_min_length" (num 8) (
              field "password_require_uppercase" (bool true) (
                field "password_require_number" (bool true) (
                  field "password_require_special" (bool false)
                    (field "jwt_expire_minutes" (num 1440) end)))))))))

abbrev pub query_gateway_defaults : Fields
query_gateway_defaults = field "max_rows_per_query" (num 10000) (
    field "default_limit" (num 1000) (
      field "rate_limit_per_minute" (num 30) (
        field "risk_threshold_medium" (num 20) (
          field "risk_threshold_high" (num 50) (
            field "risk_threshold_critical" (num 80) (
              field "approval_ttl_hours" (num 24) (
                field "allow_ddl" (bool false) (
                  field "allow_dml" (bool false)
                    (field "require_table_policy" (bool false) end)))))))))

abbrev pub masking_defaults : Fields
masking_defaults = field "global_masking_enabled" (bool true) (
    field "role_levels"
      (obj (
        field "admin" (text "raw") (
          field "manager" (text "partial")
            (field "analyst" (text "full") (field "viewer" (text "full") end)))))
      (field "partial_mask_char" (text "*") (field "partial_visible_chars" (num 4) end)))

abbrev pub audit_defaults : Fields
audit_defaults = field "retention_days" (num 365) (
    field "log_successful_queries" (bool true) (
      field "log_denied_queries" (bool true)
        (field "log_policy_changes" (bool true) (field "log_login_events" (bool true) end))))

abbrev pub notifications_defaults : Fields
notifications_defaults = field "smtp_host" null (
    field "smtp_port" (num 587) (
      field "smtp_user" null (
        field "smtp_password" null (
          field "smtp_from" null (
            field "smtp_tls" (bool true) (
              field "alert_on_critical_risk" (bool false) (
                field "alert_on_approval_request" (bool true) (
                  field "alert_emails" (arr nil) (
                    field "slack_webhook_url" null (
                      field "teams_webhook_url" null
                        (field "generic_webhook_url" null end)))))))))))

abbrev pub sso_defaults : Fields
sso_defaults = field "enabled" (bool false) (
    field "provider_name" (text "SSO") (
      field "issuer_url" null (
        field "client_id" null (
          field "client_secret" null (
            field "redirect_uri" null (
              field "scopes"
                (arr (cons (text "openid") (cons (text "email") (cons (text "profile") nil))))
                (field "frontend_redirect_url" null end)))))))

abbrev pub default_settings : Fields
default_settings = field "branding" (obj branding_defaults) (
    field "security" (obj security_defaults) (
      field "query_gateway" (obj query_gateway_defaults) (
        field "masking" (obj masking_defaults) (
          field "audit" (obj audit_defaults) (
            field "notifications" (obj notifications_defaults)
              (field "sso" (obj sso_defaults) end))))))
