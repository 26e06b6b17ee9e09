-- ===== src/Lib.antt =====
-- A model of the code battle server: submissions are sanitized, built and run in containers, rooms
-- score them and tell their players, and administrators approve the requests for events.
--
-- The parts and their files. Paths are from the repository's root.
-- * Executor/Languages (internal/executor/languages.go): NormalizeLanguage is normalize_language.
-- * Executor/Sanitize and its Patterns (internal/executor/sanitize.go): Sanitize is sanitize, over
--   the whole table of patterns. regexp.MatchString is a parameter, which answers none for a
--   pattern that does not compile.
-- * Executor/Packages (internal/executor/package_analyzer.go): Analyze is analyze. go/parser is a
--   parameter.
-- * Executor/Builder (internal/executor/code_builder.go): Build is build.
-- * Executor/Containers (internal/executor/container_manager.go): the record Manager and one
--   operation for each method; `none` is a call that blocks on the mutex for ever. The Docker
--   client is the record Docker of functions on a state of its own. Another goroutine's steps
--   between two tries of GetAvailableContainer are a parameter.
-- * Executor/Pool (internal/executor/worker_pool.go): ExecuteJob is run_job and executeJob is
--   execute_job; judge is the part of executeJob that runs in the container. generateRunCmd is in
--   Executor/Pool/Quoting, with the shell as a parameter. Executor/Pool/Workers has the goroutines of
--   the workers: a state of the channel, the workers, the containers and the waiting calls, one
--   function for a call of ExecuteJob and one for a turn of a worker, and runs of any sequence of them,
--   between which the order of the map of containers changes in any way. Executor/Pool/Workers/Start
--   has NewWorkerPool with the options of main.
-- * Startup (cmd/main/main.go, cmd/api/server.go, internal/handlers/handler.go): main is run_main, with
--   its part before Run as boot, and Run is run_server.
-- * Routes (cmd/api/routes.go): the table of routes, and which paths are of a pattern.
-- * Support (pkg/env, pkg/request, pkg/response and internal/handlers/errors.go): decodeJSON is
--   decode_json, over a decoder as a parameter, and errorMessage is error_message on a response
--   writer whose first status stays; `none` is a panic.
-- * Events (internal/events/events.go): the events of a room.
-- * Store (internal/store/models.go and query.sql.go, with the constraints of sqlc/schema.sql): the
--   rows and the queries that the room uses. Any query may be answered, not be carried out, or
--   be carried out with its answer lost, as the list `faults` of the database says.
-- * Hub (internal/hub/event_hub.go): RoomHub, its handlers process_solution_submitted,
--   process_solution_result, process_player_joined, process_player_left and process_room_deleted,
--   and its loop RoomHub.Start as step. A handler returns, returns an error, or never returns. The
--   loop is modelled as the only reader of the room's channel, as EventHub.CreateRoom starts it; the
--   second loop that NewEventHub starts on each of its two rooms is not modelled. What a handler
--   dispatches goes to the listeners that are there when it does, as if its goroutine ran at once.
-- * Requests (internal/handlers/events.go): approveEventRequest, declineEventRequest and
--   ProcessEventRequestHandler on the tables that they write. An exchange with the database is
--   answered, refused, or carried out with its answer lost; a transaction runs alone.
--   Requests/Reads, Forms and Lists hold CreateEventHandler, the handlers that list requests, events
--   and rooms, and RegisterGuildToEventHandler. encoding/json, and what a jsonb and a
--   timestamptz column give back for what they are given, are parameters.
-- * Handlers and Handlers/Submit (internal/handlers/submission.go): updateSubmissionStatus and
--   SubmitSolutionInRoomHandler, and SubmitSolutionHandler as submit_solution, whose parts go on,
--   answer, or never return.
-- * Sse (internal/handlers/sse.go, and EventHub in internal/hub/event_hub.go): Sse/Spectators has
--   EventHub.EventListeners and the goroutines of dispatchEventToEvent, Sse/Guilds NewEventHub,
--   CreateRoom and the rounds of EventHub.Start, and Sse/Rooms the connections of JoinRoomHandler as
--   a step relation, in which the steps of all connections, of the goroutines that announce a
--   departure, of other senders and of the room's loop interleave. Sse/Frames has the text that the
--   handlers write for the events, and Sse/Frames/Read reads it as the format of event streams says.
--   Sse/Delivery has one listener's channel, the goroutines that send on it and the loop of its handler
--   as a function on one act, and runs of any sequence of acts.
-- * Problems (internal/handlers/problems.go): the handlers that show problems, on the tables that
--   they read.
-- * Service (internal/service/code_battle.go): GetEvents and SubmitCodeSolution.
-- * Auth (pkg/jwt/jwt.go and internal/handlers/middlewares.go): VerifyToken,
--   GetUserClaimsFromToken and AuthMiddleware on the header. The parser of tokens is a parameter.
-- Base holds lists, maps, bytes and integers, and Tests concrete runs.
--
-- A room's handler calls the worker pool, which takes a container from the manager; the verdict
-- comes back as an event in the room's channel, and its handler writes the scores and tells the
-- listeners. The web handler of submissions puts events into the same channel, and so do the
-- connections of players. An accepted solution puts the room's event into the channel of guild
-- updates, from which EventHub sends the guild leaderboard to the spectators of the event.
--
-- Numbers. A uuid is its number, a time the number of its instant. Texts are lists of bytes. Scores
-- are kept below 2 ^ 31 by the query that adds to them; the conversion to int32 of an approval is
-- written out. The bounds are the code's: ten events in a room's channel, a hundred guild updates,
-- ten tries for a container, a thousand bytes of code. Loops are recursion on the list or number
-- that they count through, so that none wants other fuel.
--
-- Not modelled: logging, the deadlines of contexts, the tickers of the monitor, the tar archive
-- that carries the code, MonitorContainers, which nothing calls, the loading of .env, the test client,
-- which only prints events, and the generated code: of query.sql.go, which sqlc generates, the queries
-- that the program calls are modelled. net/http's servers and gRPC's are parameters of Startup by how
-- they end.
pub mod Base
pub mod Auth
pub mod Events
pub mod Executor
pub mod Handlers
pub mod Hub
pub mod Problems
pub mod Requests
pub mod Routes
pub mod Service
pub mod Sse
pub mod Startup
pub mod Store
pub mod Support
pub mod Tests
