-- ===== src/Tests/Web.antt =====
-- The theorems on the loop of a room, on SubmitSolutionHandler, on requests that are made and listed,
-- and on quoted code, at concrete inputs.
use rogue_learn_code_battle.Base.{
  ℕ, ◌*◌, ◌/◌, ◌≤◌, ◌≡◌, ◌≢◌, ◌⊎◌, ◌==◌, refl, Option, none, some, List, [], ◌∷◌, ◌++◌, Text, codes,
  arith, ℤ, pos, negsuc, Has, replace_first, text_eq, strip_prefix?, if◌then◌else◌,
}
use mathlib.Core.Path.{subst}
use rogue_learn_code_battle.Store.Models.{Uuid}
use rogue_learn_code_battle.Events.{departed, submitted}
use rogue_learn_code_battle.Executor.Pool.Quoting.{
  Shell, PutsString, onto, onto_all, generate_run_cmd, generate_run_cmd-quoted,
}
use rogue_learn_code_battle.Hub.{Hub, rounds, Setting}
use rogue_learn_code_battle.Hub.Drains.{Stuck, weight, rounds-drain}
use rogue_learn_code_battle.Handlers.Submit.{Server, submit_solution}
use rogue_learn_code_battle.Handlers.Submit.Settled.{Settled, submit_solution-Settled}
use rogue_learn_code_battle.Requests.{
  Session, EventRequest, Json, ParticipationDetails, RoomConfiguration, Tables,
}
use rogue_learn_code_battle.Requests.Reads.{create_event_request, new_request}
use rogue_learn_code_battle.Requests.Forms.{
  Columns, EventCreationRequest, accepted, insert_request, create_event_handler, params_of,
  EventRequestResponse,
}
use rogue_learn_code_battle.Requests.Lists.{get_my_event_requests, listed}
use rogue_learn_code_battle.Requests.Listed.{ReadsBack, sent_response, create_event_handler-listed}
use rogue_learn_code_battle.Store.Db.{Db}
use rogue_learn_code_battle.Tests.Executor.{
  python, simple, manager_of, two, quiet, free_queue, matches, no_analyzers,
}
use rogue_learn_code_battle.Tests.Hub.{hub_with, solution, calm, small_db}

-- A submission and a departure wait in the room's channel.
abbrev pub busy_hub : Hub ℕ
busy_hub = hub_with (submitted solution ∷ departed (record { player_id = 2; room_id = 9 }) ∷ [])

three_enough : weight busy_hub.room.events ≤ 3
unfolding weight
three_enough = omega arith

rounds-drain_example :
    ((h' : Hub ℕ) × (rounds simple matches no_analyzers (calm ∷ calm ∷ calm ∷ []) busy_hub
        ≡ some h')
      × (h'.room.events ≡ []))
    ⊎ ((rounds simple matches no_analyzers (calm ∷ calm ∷ calm ∷ []) busy_hub ≡ none)
        × (setting : Setting simple) × Has setting (calm ∷ calm ∷ calm ∷ [])
        × Stuck simple matches no_analyzers setting)
rounds-drain_example =
    rounds-drain simple matches no_analyzers (calm ∷ calm ∷ calm ∷ []) busy_hub
      (refl, (refl, (refl, tt))) (omega arith) three_enough

abbrev server : Server ℕ
server = record { db = small_db; manager = manager_of two }

submit_solution-Settled_example :
    Settled simple matches no_analyzers free_queue quiet server 2 7 (codes "x") (
      submit_solution simple matches no_analyzers free_queue quiet
        (some (record { code = codes "x"; language = codes "py" }))
        (some 2)
        (some 7)
        server)
submit_solution-Settled_example =
    submit_solution-Settled simple matches no_analyzers free_queue quiet
      (record { code = codes "x"; language = codes "py" }) 2 7 server (omega arith, tt)

-- A shell that reads words: outside of quotes, between quotes, and behind a backslash.
data Where : Type 0 where
  outside inside escaped : Where

read : Where → Text → Option Text
read outside [] = some []
read inside [] = none
read escaped [] = none
read outside (c ∷ s) =
    let plain = read outside s in
    let quoted = read inside s in
    let kept = read escaped s in if c == 39 then quoted else if c == 92 then kept else onto c plain
read inside (c ∷ s) =
    let plain = read outside s in
    let quoted = read inside s in if c == 39 then plain else onto c quoted
read escaped (c ∷ s) = onto c (read outside s)

read-other : (c : ℕ) (s : Text) → c ≢ 39 → read inside (c ∷ s) ≡ onto c (read inside s)
unfolding read
read-other c s ne = ground (arith, ne)

abbrev posix : Shell
unfolding read
posix = record {
  plain = read outside;
  quoted = read inside;
  quoted-quote = λ s. refl;
  quoted-other = read-other;
  plain-quote = λ s. refl;
  plain-escaped = λ s. refl;
}

-- fmt.Sprintf on a format with one %s.
abbrev put_string : Text → Text → Text
put_string format s = replace_first format (codes "%s") s

put_string-PutsString : PutsString put_string (codes "python3 -c '") (codes "'")
unfolding replace_first strip_prefix?
put_string-PutsString s = refl

generate_run_cmd-quoted_example :
    (word : Text) × (generate_run_cmd put_string (codes "python3 -c '%s'") (codes "print('hi')")
      ≡ codes "python3 -c " ++ (word ++ []))
    × (posix.plain (word ++ []) ≡ onto_all (codes "print('hi')") (posix.plain []))
generate_run_cmd-quoted_example =
    generate_run_cmd-quoted posix put_string (codes "python3 -c ") [] (codes "print('hi')")
      put_string-PutsString

-- A format in which an integer is two numbers.
abbrev sign_of : ℤ → ℕ
sign_of (pos n) = 0
sign_of (negsuc n) = 1

abbrev size_of : ℤ → ℕ
size_of (pos n) = n
size_of (negsuc n) = n

abbrev int_of : ℕ → ℕ → ℤ
int_of sign n = if sign == 0 then pos n else negsuc n

int_back : (z : ℤ) → int_of (sign_of z) (size_of z) ≡ z
int_back (pos n) = refl
int_back (negsuc n) = refl

abbrev encode_participation : ParticipationDetails → Text
encode_participation x =
    sign_of x.max_guilds
    ∷ size_of x.max_guilds
    ∷ sign_of x.max_players_per_guild
    ∷ size_of x.max_players_per_guild
    ∷ []

abbrev decode_participation : Text → Option ParticipationDetails
decode_participation (a ∷ m ∷ b ∷ n ∷ []) =
    some (record { max_guilds = int_of a m; max_players_per_guild = int_of b n })
decode_participation _ = none

abbrev encode_rooms : RoomConfiguration → Text
encode_rooms x =
    sign_of x.number_of_rooms
    ∷ size_of x.number_of_rooms
    ∷ sign_of x.guilds_per_room
    ∷ size_of x.guilds_per_room
    ∷ x.room_naming_prefix

abbrev decode_rooms : Text → Option RoomConfiguration
decode_rooms (a ∷ m ∷ b ∷ n ∷ prefix) = some (record {
  number_of_rooms = int_of a m;
  guilds_per_room = int_of b n;
  room_naming_prefix = prefix;
})
decode_rooms _ = none

abbrev codec : Json
codec = record { unmarshal_rooms = decode_rooms; unmarshal_participation = decode_participation }

-- A timestamptz column, for times in nanomicroseconds.
abbrev microseconds : ℕ → ℕ
microseconds n = (n / 1000) * 1000

abbrev columns : Columns
columns = record {
  marshal_participation = λ x. some (encode_participation x);
  marshal_rooms = λ x. some (encode_rooms x);
  marshal_specifics = λ x. none;
  jsonb = λ s. some s;
  timestamp = microseconds;
}

kept_same : {a b c : Text} → some a ≡ some b → some b ≡ some c → a ≡ c
kept_same p q = cc

cons_ne : {a : ℕ} {s : Text} → a ∷ s ≢ []
cons_ne e = cc

participation_back :
    (x : ParticipationDetails) → decode_participation (encode_participation x) ≡ some x
participation_back x = rw (int_back x.max_guilds, int_back x.max_players_per_guild) refl

rooms_back : (x : RoomConfiguration) → decode_rooms (encode_rooms x) ≡ some x
rooms_back x = rw (int_back x.number_of_rooms, int_back x.guilds_per_room) refl

codec-ReadsBack : ReadsBack codec columns
codec-ReadsBack = record {
  participation = λ x p q.
      subst (λ (s : Text). (s ≢ []) × (decode_participation s ≡ some x)) (kept_same p q)
        (cons_ne, participation_back x);
  rooms = λ x p q.
      subst (λ (s : Text). (s ≢ []) × (decode_rooms s ≡ some x)) (kept_same p q)
        (cons_ne, rooms_back x);
}

abbrev party : EventCreationRequest
party = record {
  requester_guild_id = some 2;
  event_type = codes "code_battle";
  title = codes "t";
  description = codes "d";
  proposed_start_date = 5001;
  proposed_end_date = 6999;
  participation = record { max_guilds = pos 3; max_players_per_guild = pos 4 };
  room_configuration = record {
    number_of_rooms = pos 2;
    guilds_per_room = pos 3;
    room_naming_prefix = codes "Room";
  };
  event_specifics = none;
  notes = codes "n";
}

abbrev first_tables : Tables
first_tables = record {
  requests = [];
  events = [];
  rooms = [];
  participants = [];
  clock = 7;
  next_id = 20;
}

abbrev party_row : EventRequest
party_row =
    new_request microseconds
      (params_of party 2 (encode_participation party.participation)
        (encode_rooms party.room_configuration) none)
      20 7 (encode_participation party.participation) (encode_rooms party.room_configuration) none

abbrev before : Session
before = record { tables = first_tables; exchanges = [] }

abbrev after : Session
after = record {
  tables = record first_tables { requests = party_row ∷ []; next_id = 21 };
  exchanges = [];
}

party_made : create_event_handler columns (some party) before ≡ (accepted party_row, after)
unfolding create_event_handler insert_request create_event_request text_eq
party_made = refl

create_event_handler-listed_example :
    (guild : Uuid) × (rest : List EventRequestResponse) × (some 2 ≡ some guild)
    × ((get_my_event_requests codec (some (some guild)) after).0
        ≡ listed (sent_response microseconds party guild 20 ∷ rest))
create_event_handler-listed_example =
    create_event_handler-listed codec columns party before after party_row codec-ReadsBack tt
      party_made refl

abbrev python_db : Db
python_db = record small_db {
  languages = python ∷ [];
  details =
      record {
        code_problem_id = 7;
        language_id = 1;
        solution_stub = codes "s";
        driver_code = codes "d";
        time_constraint_ms = 1;
        space_constraint_mb = 2;
      }
      ∷ [];
}
