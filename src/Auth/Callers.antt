-- ===== src/Auth/Callers.antt =====
-- The callers of the admin interface and the redaction of bearers (internal/auth/caller.go, bearer.go).
use bouncer.Base.{Bool, true, false, Str}

pub data Role : Type 0 where
  role_anonymous role_user role_admin : Role

pub record Caller : Type 0 where
  pub subject : Str
  pub role : Role

unfoldable pub is_admin : Caller → Bool
is_admin c = elim (c.role) [ role_admin ↦ true | _ ↦ false ]

unfoldable pub is_authenticated : Caller → Bool
is_authenticated c = elim (c.role) [ role_anonymous ↦ false | _ ↦ true ]
