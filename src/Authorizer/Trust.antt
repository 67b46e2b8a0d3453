-- ===== src/Authorizer/Trust.antt =====
-- handler.go, the last part of `ServeHTTP`: the header that the authorizer forwards.
use agent_enterprise_protoco.Common.{String, List, [], ◌∷◌, nat_eq, string_eq}
use agent_enterprise_protoco.Authorizer.Http.{
  Header, del, set_trusted_header, remove_untrusted_aep_headers,
}

-- What the authorizer has established of a request.
pub record Established : Type 0 where
  pub request_id : String
  pub consumer : String
  pub team_ids : String
  pub role_ids : String
  pub policy_headers : List (String × String)
  pub deployment_id : String
  pub user_id : String
  pub session_id : String
  pub model_id : String

unfoldable pub set_all : List (String × String) → Header → Header
set_all [] h = h
set_all ((name, value) ∷ headers) h = set_all headers (set_trusted_header h name value)

-- The client's header without what the client must not say.
unfoldable pub clean : Established → Header → Header
clean e h =
    let h = remove_untrusted_aep_headers (del h "Authorization") in
    let h = set_trusted_header h "X-AEP-Request-ID" e.request_id in
    del (del (del h "Connection") "Proxy-Connection") "X-Mse-Consumer"

unfoldable pub set_memberships : Established → Header → Header
set_memberships e h =
    let h = set_trusted_header h "X-Mse-Consumer" e.consumer in
    let h = set_trusted_header h "X-AEP-Team-IDs" e.team_ids in
    set_trusted_header h "X-AEP-Role-IDs" e.role_ids

unfoldable pub set_subject : Established → Header → Header
set_subject e h =
    let h = set_trusted_header h "X-AEP-Deployment-ID" e.deployment_id in
    let h = set_trusted_header h "X-AEP-User-ID" e.user_id in
    let h = set_trusted_header h "X-AEP-Session-ID" e.session_id in
    set_trusted_header h "X-AEP-Model-ID" e.model_id

unfoldable pub forward_headers : Established → Header → Header
unfolding clean set_memberships set_subject set_all
forward_headers e h = set_subject e (set_all e.policy_headers (set_memberships e (clean e h)))
