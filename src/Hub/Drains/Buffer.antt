-- ===== src/Hub/Drains/Buffer.antt =====
-- The handlers of a room's events that send nothing into the room's channel and never block.
use rogue_learn_code_battle.Base.{
  ◌≡◌, ◌∙◌, refl, Bool, true, false, map, length, ltb, lookup, nat_eq, Option-cases, Bool-cases,
  inl, inr, if◌then◌else◌, Text,
}
use rogue_learn_code_battle.Store.Models.{Uuid}
use rogue_learn_code_battle.Store.Db.{Query, QueryResult, ok, no_rows, query_error}
use rogue_learn_code_battle.Store.Players.{calculate_room_leaderboard, get_room_players}
use rogue_learn_code_battle.Events.{SolutionResult, PlayerJoined, PlayerLeft, RoomDeleted, SseEvent}
use rogue_learn_code_battle.Hub.Ensures.{Ensures, returned, errored, Ensures-bind, Ensures-weaken}
use rogue_learn_code_battle.Hub.Exec.{
  Hub, HubError, Handler, ◌>>=◌, ◌>>◌, pure, guard, attempt, or_fail, run, guild_capacity,
  notify_guild, dispatch_event, dispatch_event_to_player,
}
use rogue_learn_code_battle.Hub.Defs.{
  calculate_leaderboard, get_room_leaderboard_entries, accept_solution, reject_solution,
  process_solution_result, add_player_to_room, announce_joined, process_player_joined,
  process_player_left, process_room_deleted, entry_of,
}

-- The buffer is as it was, on a return and on an error; the handler blocks only if `B` holds.
pub record Keeps (B : Type 0) {W A : Type 0} (m : Handler W A) : Type 0 where
  pub keeps :
      (h : Hub W)
      → Ensures
          (λ _ h'. h'.room.events ≡ h.room.events)
          (λ h'. h'.room.events ≡ h.room.events)
          B
          (m h)

module _ {B W : Type 0} where
  pub then-Keeps :
      {A C : Type 0} {m : Handler W A} {f : A → Handler W C}
      → Keeps B m
      → ((a : A) → Keeps B (f a))
      → Keeps B (m >>= f)
  then-Keeps first next = record {
    keeps = λ h.
        Ensures-bind _ (first.keeps h)
          (λ a h₁ e₁. Ensures-weaken ((next a).keeps h₁) (λ _ h₂ e₂. e₂ ∙ e₁) (λ h₂ e₂. e₂ ∙ e₁));
  }

  pub next-Keeps :
      {C : Type 0} {m : Handler W (Unit {0})} {k : Handler W C}
      → Keeps B m
      → Keeps B k
      → Keeps B (m >> k)
  next-Keeps first next = then-Keeps first (λ _. next)

  pub reading-Keeps :
      {A : Type 0} {m : Hub W → Handler W A} → ((h : Hub W) → Keeps B (m h)) → Keeps B (λ h. m h h)
  reading-Keeps all = record { keeps = λ h. (all h).keeps h }

  pub attempt-Keeps : {A : Type 0} (q : Query A) → Keeps B {W = W} (attempt q)
  attempt-Keeps q = record { keeps = λ h. returned refl }

  pub or_fail-Keeps : {A : Type 0} (r : QueryResult A) → Keeps B {W = W} (or_fail r)
  or_fail-Keeps (ok a) = record { keeps = λ h. returned refl }
  or_fail-Keeps no_rows = record { keeps = λ h. errored refl }
  or_fail-Keeps query_error = record { keeps = λ h. errored refl }

  pub run-Keeps : {A : Type 0} (q : Query A) → Keeps B {W = W} (run q)
  run-Keeps q = then-Keeps (attempt-Keeps q) or_fail-Keeps

  pub pure-Keeps : {A : Type 0} (a : A) → Keeps B {W = W} (pure a)
  pure-Keeps a = record { keeps = λ h. returned refl }

  pub guard-Keeps : (b : Bool) (e : HubError) → Keeps B {W = W} (guard b e)
  guard-Keeps true e = record { keeps = λ h. returned refl }
  guard-Keeps false e = record { keeps = λ h. errored refl }

  pub dispatch_event-Keeps : (e : SseEvent) → Keeps B {W = W} (dispatch_event e)
  unfolding dispatch_event
  dispatch_event-Keeps e = record { keeps = λ h. returned refl }

  pub dispatch_event_read-Keeps :
      (e : Hub W → SseEvent) → Keeps B {W = W} (λ h. dispatch_event (e h) h)
  dispatch_event_read-Keeps e = reading-Keeps (λ h. dispatch_event-Keeps (e h))

  pub if_both-Keeps :
      {A : Type 0} (b : Bool) {m k : Handler W A}
      → Keeps B m
      → Keeps B k
      → Keeps B (if b then m else k)
  if_both-Keeps true first other = first
  if_both-Keeps false first other = other

  pub dispatch_event_to_player-Keeps :
      (e : SseEvent) (player : Uuid) → Keeps B {W = W} (dispatch_event_to_player e player)
  unfolding dispatch_event_to_player
  dispatch_event_to_player-Keeps e player = record {
    keeps = λ h. elim (Option-cases (lookup player h.room.listeners)) [
      | inl absent ↦ rw (absent, dispatch_event_to_player) (returned refl)
      | inr (channel, here) ↦ rw (here, dispatch_event_to_player) (returned refl)
    ];
  }

  pub notify_guild-Keeps : Keeps B {W = W} notify_guild
  notify_guild-Keeps = record {
    keeps = λ h. elim (Bool-cases (ltb (length h.guild_updates) guild_capacity)) [
      | inl room ↦ rw room (returned refl)
      | inr full ↦ rw full (returned refl)
    ];
  }

  pub get_room_leaderboard_entries-Keeps : Keeps B {W = W} get_room_leaderboard_entries
  unfolding get_room_leaderboard_entries
  get_room_leaderboard_entries-Keeps =
      then-Keeps (reading-Keeps (λ h. run-Keeps (get_room_players h.room.room_id)))
        (λ rows. pure-Keeps (map entry_of rows))

  pub calculate_leaderboard-Keeps : Keeps B {W = W} calculate_leaderboard
  unfolding calculate_leaderboard
  calculate_leaderboard-Keeps =
      reading-Keeps (λ h. attempt-Keeps (calculate_room_leaderboard h.room.room_id))

  pub get_room_players-Keeps : Keeps B {W = W} (λ h. attempt (get_room_players h.room.room_id) h)
  get_room_players-Keeps = reading-Keeps (λ h. attempt-Keeps (get_room_players h.room.room_id))

pub ruleset buffer = (
  then-Keeps, next-Keeps, attempt-Keeps, run-Keeps, pure-Keeps, guard-Keeps, dispatch_event-Keeps,
  dispatch_event_read-Keeps, if_both-Keeps, dispatch_event_to_player-Keeps, notify_guild-Keeps,
  get_room_leaderboard_entries-Keeps, calculate_leaderboard-Keeps, get_room_players-Keeps,
)

module _ {B W : Type 0} where
  accept_solution-Keeps : (event : SolutionResult) → Keeps B {W = W} (accept_solution event)
  unfolding accept_solution
  accept_solution-Keeps event = search buffer depth 12

  reject_solution-Keeps : (event : SolutionResult) → Keeps B {W = W} (reject_solution event)
  unfolding reject_solution
  reject_solution-Keeps event = search buffer

  pub process_solution_result-Keeps :
      (event : SolutionResult) → Keeps B {W = W} (process_solution_result event)
  unfolding process_solution_result
  process_solution_result-Keeps event =
      search (buffer, accept_solution-Keeps, reject_solution-Keeps)

  add_player_to_room-Keeps :
      (room player : Uuid) (name : Text) → Keeps B {W = W} (add_player_to_room room player name)
  unfolding add_player_to_room
  add_player_to_room-Keeps room player name = search buffer

  announce_joined-Keeps : (event : PlayerJoined) → Keeps B {W = W} (announce_joined event)
  unfolding announce_joined
  announce_joined-Keeps event = search buffer

  pub process_player_joined-Keeps :
      (event : PlayerJoined) → Keeps B {W = W} (process_player_joined event)
  unfolding process_player_joined
  process_player_joined-Keeps event =
      search (buffer, add_player_to_room-Keeps, announce_joined-Keeps)

  pub process_player_left-Keeps : (event : PlayerLeft) → Keeps B {W = W} (process_player_left event)
  unfolding process_player_left
  process_player_left-Keeps event = search buffer

  pub process_room_deleted-Keeps :
      (event : RoomDeleted) → Keeps B {W = W} (process_room_deleted event)
  unfolding process_room_deleted
  process_room_deleted-Keeps event = search buffer
