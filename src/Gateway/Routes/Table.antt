-- ===== src/Gateway/Routes/Table.antt =====
-- The table of routes that `setupRoutes` and `setupAuthRoutes` of services/api-gateway/server/routes.go
-- make, and what each runs. That gin runs the handler of the route with a request's method and path
-- is gin's documented behaviour; every path here is static.
use re_master.Prelude.{
  String, Option, none, some, List, [], ◌∷◌, ◌≡◌, refl, ◌==◌, ◌&&◌, if◌then◌else◌,
}
use re_master.Redis.{Redis}
use re_master.Gateway.Handlers.{
  Handlers, register, login, oauth_login, refresh_token, validate_token, logout, change_password,
  health,
}
use re_master.Gateway.Middleware.Common.{Panic}
use re_master.Gateway.Routes.{chain}

pub data Endpoint : Type 0 where
  gateway_health register_user login_user provider_login : Endpoint
  refresh validate new_password logout_user auth_health : Endpoint

pub record Route : Type 0 where
  pub method : String
  pub path : String
  pub endpoint : Endpoint

abbrev get : String → Endpoint → Route
get path endpoint = record { method = "GET"; path = path; endpoint = endpoint }

abbrev post : String → Endpoint → Route
post path endpoint = record { method = "POST"; path = path; endpoint = endpoint }

unfoldable pub routes : List Route
routes =
    get "/health" gateway_health
    ∷ post "/auth/register" register_user
    ∷ post "/auth/login" login_user
    ∷ post "/auth/provider" provider_login
    ∷ post "/auth/refresh-token" refresh
    ∷ post "/auth/validate-token" validate
    ∷ post "/auth/change-password" new_password
    ∷ post "/auth/logout" logout_user
    ∷ get "/auth/health" auth_health
    ∷ []

unfoldable pub find_route : List Route → String → String → Option Endpoint
find_route [] method path = none
find_route (r ∷ rest) method path =
    if r.method == method && r.path == path then some r.endpoint else find_route rest method path

module _ {C : Type 0} (h : Handlers C) (report : C → C) where
  abbrev returning : (C → C) → C → C × Option Panic
  returning handler c = (handler c, none)

  -- `report` is `handleHealth` on the gateway's connections.
  unfoldable pub handler_of : Endpoint → C → C × Option Panic
  handler_of gateway_health = returning report
  handler_of register_user = returning (register h)
  handler_of login_user = returning (login h)
  handler_of provider_login = returning (oauth_login h)
  handler_of refresh = returning (refresh_token h)
  handler_of validate = returning (validate_token h)
  handler_of new_password = returning (change_password h)
  handler_of logout_user = returning (logout h)
  handler_of auth_health = health h

  -- A request to a route: the chain of middleware around its handler; none if there is no such route.
  abbrev run : Redis C → Option Endpoint → C → Option C
  run r none c = none
  run r (some endpoint) c = some (chain h.gin r (handler_of endpoint) c)

  unfoldable pub serve_route : Redis C → C → Option C
  unfolding routes find_route handler_of chain
  serve_route r c = run r (find_route routes (h.gin.method c) (h.gin.path c)) c

-- The method and the path by which an endpoint is reached.
abbrev route_of : Endpoint → String × String
route_of gateway_health = ("GET", "/health")
route_of register_user = ("POST", "/auth/register")
route_of login_user = ("POST", "/auth/login")
route_of provider_login = ("POST", "/auth/provider")
route_of refresh = ("POST", "/auth/refresh-token")
route_of validate = ("POST", "/auth/validate-token")
route_of new_password = ("POST", "/auth/change-password")
route_of logout_user = ("POST", "/auth/logout")
route_of auth_health = ("GET", "/auth/health")

-- No route is hidden by another.
find_route-route_of : (e : Endpoint) → find_route routes (route_of e).0 (route_of e).1 ≡ some e
unfolding routes find_route
find_route-route_of gateway_health = refl
find_route-route_of register_user = refl
find_route-route_of login_user = refl
find_route-route_of provider_login = refl
find_route-route_of refresh = refl
find_route-route_of validate = refl
find_route-route_of new_password = refl
find_route-route_of logout_user = refl
find_route-route_of auth_health = refl
