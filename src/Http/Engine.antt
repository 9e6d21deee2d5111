-- ===== src/Http/Engine.antt =====
-- The routes of the server: newHandler (internal/httpsrv/treemanager/treemanager.go) on the engine of
-- DefaultEngine (internal/httpsrv/common/common.go). The middleware of authentication is an argument:
-- what it answers to a request that it refuses, none for a request that it lets pass.
use fertilesoil.Base.{ℕ, Option, none, some, List, String, Error, Action, pure, ◌>>=◌}
use fertilesoil.Api.{DirectoryId, api_version}
use fertilesoil.Storage.Notifier.{notifying}
use fertilesoil.Http.Handlers.{Request, Response, Route, serve}
use fertilesoil.Http.Server.{Server, readiness_check_handler}

-- What gin has found for the method and the path.
pub data Endpoint : Type 0 where
  livez : Endpoint
  readyz : Endpoint
  api : Endpoint
  api_v1 : Endpoint
  directories : Route → Endpoint
  no_route : Endpoint

pub data Answer : Type 0 where
  -- `{"status": "UP"}`
  status_up : Answer
  readiness : ℕ → List (String × Option Error) → Answer
  -- `{"version": ...}`
  version : String → Answer
  -- 404 and `{"message": "invalid request - route not found"}`
  route_not_found : Answer
  refused : Response → Answer
  response : Response → Answer

abbrev readiness_answer : ℕ × List (String × Option Error) → Answer
readiness_answer (status, answers) = readiness status answers

-- A handler behind authMW.AuthRequired(), which answers by itself or calls it.
abbrev pub auth_required : {S : Type 0} → Option Response → Action S Response → Action S Answer
auth_required none h = do answer ← h; pure (response answer)
auth_required (some answer) h = pure (refused answer)

abbrev pub liveness_check_handler : Answer
liveness_check_handler = status_up

abbrev pub api_version_handler : Answer
api_version_handler = version api_version

abbrev pub no_route_handler : Answer
no_route_handler = route_not_found

unfoldable pub new_handler :
    {S : Type 0}
    → (Request → Option Response)
    → (String → Option DirectoryId)
    → Option Error
    → Server S
    → Endpoint
    → Request
    → Action S Answer
new_handler auth uuid_parse ping s livez r = pure liveness_check_handler
new_handler auth uuid_parse ping s readyz r =
    pure (readiness_answer (readiness_check_handler s.readiness_checks ping))
new_handler auth uuid_parse ping s api r = pure api_version_handler
new_handler auth uuid_parse ping s api_v1 r = pure api_version_handler
new_handler auth uuid_parse ping s (directories route) r =
    auth_required (auth r) (serve uuid_parse (notifying s.store) route r)
new_handler auth uuid_parse ping s no_route r = pure no_route_handler
