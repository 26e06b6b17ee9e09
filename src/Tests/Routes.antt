-- ===== src/Tests/Routes.antt =====
-- Which handlers the routes name for some paths.
use rogue_learn_code_battle.Base.{◌≡◌, refl, [], ◌∷◌, List, Text, codes, text_eq, keep, map}
use rogue_learn_code_battle.Routes.{
  Handler, Route, Method, get, post, get_problems, get_problem, get_problem_details, get_events,
  create_event, problem_routes, event_routes, event_request_routes, admin_routes, routes, takes,
}

abbrev handlers_of : Method → List Text → List Handler
handlers_of method path =
    map (λ (r : Route). r.handler) (keep (λ (r : Route). takes r method path) routes)

details_served :
    handlers_of get (codes "problems" ∷ codes "7" ∷ codes "details" ∷ []) ≡ get_problem_details ∷ []
unfolding routes event_routes event_request_routes admin_routes problem_routes text_eq
details_served = refl

root_served : handlers_of get (codes "problems" ∷ []) ≡ get_problems ∷ []
unfolding routes event_routes event_request_routes admin_routes problem_routes text_eq
root_served = refl

slash_served : handlers_of get (codes "problems" ∷ [] ∷ []) ≡ get_problems ∷ []
unfolding routes event_routes event_request_routes admin_routes problem_routes text_eq
slash_served = refl

slash_served_again : handlers_of get (codes "events" ∷ [] ∷ []) ≡ get_events ∷ []
unfolding routes event_routes event_request_routes admin_routes problem_routes text_eq
slash_served_again = refl

problem_served : handlers_of get (codes "problems" ∷ codes "7" ∷ []) ≡ get_problem ∷ []
unfolding routes event_routes event_request_routes admin_routes problem_routes text_eq
problem_served = refl

request_served : handlers_of post (codes "event-requests" ∷ []) ≡ create_event ∷ []
unfolding routes event_routes event_request_routes admin_routes problem_routes text_eq
request_served = refl
