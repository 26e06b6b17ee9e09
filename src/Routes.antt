-- ===== src/Routes.antt =====
-- cmd/api/routes.go: the table of routes. The router itself, chi, and the middleware for CORS are
-- not modelled: a path is the list of its segments, and a pattern says which paths are its own.
use rogue_learn_code_battle.Base.{
  Bool, true, false, ◌&&◌, List, [], ◌∷◌, ◌++◌, Text, codes, text_eq,
}

pub data Method : Type 0 where
  get post : Method

pub data Segment : Type 0 where
  literal : Text → Segment
  param : Text → Segment
  root : Segment

pub data Handler : Type 0 where
  get_events get_event_rooms spectate_event join_room submit_solution_in_room get_room_problems
        create_event get_my_event_requests get_event_requests process_event_request submit_solution
        get_problems get_problem get_problem_details :
      Handler

pub record Route : Type 0 where
  pub method : Method
  pub pattern : List Segment
  pub handler : Handler

-- mux.Route: the routes of a group stand below its prefix.
abbrev below : List Segment → List Route → List Route
below prefix [] = []
below prefix (r ∷ rs) = record r { pattern = prefix ++ r.pattern } ∷ below prefix rs

abbrev route : Method → List Segment → Handler → Route
route method pattern handler = record { method = method; pattern = pattern; handler = handler }

abbrev event_id : Segment
event_id = param (codes "event_id")

abbrev room_id : Segment
room_id = param (codes "room_id")

abbrev request_id : Segment
request_id = param (codes "request_id")

abbrev problem_id : Segment
problem_id = param (codes "problem_id")

abbrev word : Text → Segment
word s = literal s

unfoldable pub event_routes : List Route
event_routes =
    route get (root ∷ []) get_events
    ∷ route get (event_id ∷ word (codes "rooms") ∷ []) get_event_rooms
    ∷ route get (event_id ∷ word (codes "leaderboard") ∷ []) spectate_event
    ∷ route get (event_id ∷ word (codes "rooms") ∷ room_id ∷ word (codes "leaderboard") ∷ [])
        join_room
    ∷ route post (event_id ∷ word (codes "rooms") ∷ room_id ∷ word (codes "submit") ∷ [])
        submit_solution_in_room
    ∷ route get (event_id ∷ word (codes "rooms") ∷ room_id ∷ word (codes "problems") ∷ [])
        get_room_problems
    ∷ []

unfoldable pub event_request_routes : List Route
event_request_routes =
    route post (root ∷ []) create_event
    ∷ route get (word (codes "my") ∷ []) get_my_event_requests
    ∷ []

unfoldable pub admin_routes : List Route
admin_routes =
    route get (word (codes "event-requests") ∷ []) get_event_requests
    ∷ route post (word (codes "event-requests") ∷ request_id ∷ word (codes "process") ∷ [])
        process_event_request
    ∷ []

unfoldable pub problem_routes : List Route
problem_routes =
    route get (root ∷ []) get_problems
    ∷ route get (problem_id ∷ []) get_problem
    ∷ route get (problem_id ∷ word (codes "details") ∷ []) get_problem_details
    ∷ []

-- Application.routes
unfoldable pub routes : List Route
unfolding event_routes event_request_routes admin_routes problem_routes
routes =
    below (word (codes "events") ∷ []) event_routes
    ++ (below (word (codes "event-requests") ∷ []) event_request_routes
        ++ (below (word (codes "admin") ∷ []) admin_routes
            ++ (below (word (codes "submissions") ∷ [])
                  (route post (root ∷ []) submit_solution ∷ [])
                ++ below (word (codes "problems") ∷ []) problem_routes)))

-- The path is of the pattern: its literals are there, and a parameter takes one segment, which may
-- be empty only in front of another one. A path with a slash at its end has an empty last segment;
-- the root of a group takes its prefix with such a slash and without.
abbrev pub is_path_of : List Segment → List Text → Bool
is_path_of [] [] = true
is_path_of (root ∷ []) [] = true
is_path_of (root ∷ []) ([] ∷ []) = true
is_path_of (literal w ∷ p) (s ∷ path) = text_eq w s && is_path_of p path
is_path_of (param x ∷ p) ((c ∷ s) ∷ path) = is_path_of p path
is_path_of (param x ∷ p) ([] ∷ s ∷ path) = is_path_of p (s ∷ path)
is_path_of _ _ = false

abbrev same_method : Method → Method → Bool
same_method get get = true
same_method post post = true
same_method _ _ = false

abbrev pub takes : Route → Method → List Text → Bool
takes r method path = same_method r.method method && is_path_of r.pattern path
