-- ===== src/Web/Grants/Keeps.antt =====
-- What the shared steps of the grants leave alone: any predicate of the database that an inserted
-- refresh token and an audit record keep.
use omni_identity.Prelude.{ℕ, String}
use omni_identity.Model.{User, Client, RefreshToken, AuditEvent}
use omni_identity.Oidc.Scope.{has_scope, scope_offline_access}
use omni_identity.Store.Io.{Db}
use omni_identity.Store.Clients.{append_audit_event}
use omni_identity.Store.RefreshTokens.{create_refresh_token}
use omni_identity.Web.Server.{Env, Request}
use omni_identity.Web.Handler.{AuditEntry, audit_event, audit}
use omni_identity.Web.Handler.Keeps.{
  Keeps, Keeps-exec, Keeps-attempt, Keeps-if, Keeps-pure, Keeps-bind, Keeps-find_or_reject,
  keeps_rules,
}
use omni_identity.Web.Issue.{TokenResponse, TokenContext, new_refresh_token, record_token_metrics}
use omni_identity.Web.Grants.{require_client, require_user, issue_refresh, issued}

module _ {κ} {P : Db → Type κ} where
  pub require_client-Keeps : (env : Env) (req : Request) → Keeps P (require_client env req)
  unfolding require_client
  require_client-Keeps env req = Keeps-find_or_reject _ _

  pub require_user-Keeps : (env : Env) (id : String) → Keeps P (require_user env id)
  unfolding require_user
  require_user-Keeps env id = Keeps-find_or_reject _ _

module _ {κ} {P : Db → Type κ} (env : Env) where
  pub audit-Keeps :
      ((ev : AuditEvent) (db : Db) → P db → P (append_audit_event env.io ev db))
      → (req : Request) (event : String) (e : AuditEntry) → Keeps P (audit env req event e)
  unfolding audit
  audit-Keeps k req event e = Keeps-attempt _ (k (audit_event env req event e))

  pub issue_refresh-Keeps :
      ((rt : RefreshToken) (db : Db) → P db → P (create_refresh_token env.io rt db).1)
      → (client : Client) (user : User) (scope : String) (t : ℕ) (tc : TokenContext)
        (resp : TokenResponse)
      → Keeps P (issue_refresh env client user scope t tc resp)
  unfolding issue_refresh
  issue_refresh-Keeps k client user scope t tc resp =
      Keeps-if (has_scope scope scope_offline_access) _ _
        (Keeps-bind _ _ (Keeps-exec _ _ (k (new_refresh_token env client user scope t "" tc)))
          (λ _. Keeps-pure _))
        (Keeps-pure resp)

  pub issued-Keeps :
      ((ev : AuditEvent) (db : Db) → P db → P (append_audit_event env.io ev db))
      → (req : Request) (client : Client) (user : User) (detail : String) (resp : TokenResponse)
      → Keeps P (issued env req client user detail resp)
  unfolding issued record_token_metrics
  issued-Keeps k req client user detail resp = search (keeps_rules, audit-Keeps k) depth 9
