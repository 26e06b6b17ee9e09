-- ===== src/Hub/Exec.antt =====
-- The state that the handlers of a room's events work on, and the blocks that they are written in.
use rogue_learn_code_battle.Base.{
  ℕ, Bool, true, false, none, some, List, [], ◌∷◌, ◌++◌, map, length, ltb, if◌then◌else◌, lookup,
  nat_eq,
}
use rogue_learn_code_battle.Store.Models.{Uuid}
use rogue_learn_code_battle.Store.Db.{Db, Query, QueryResult, ok, no_rows, query_error}
use rogue_learn_code_battle.Events.{RoomEvent, SseEvent}
use rogue_learn_code_battle.Executor.Containers.{Manager}

-- RoomHub: its channel of events, which holds ten, and the channels of its listeners by player. A
-- channel is its number.
pub record RoomHub : Type 0 where
  pub room_id : Uuid
  pub event_id : Uuid
  pub events : List RoomEvent
  pub listeners : List (Uuid × ℕ)

-- The room, the database, the channel of guild updates, the containers, and the sends that the
-- dispatching goroutines try, each on one channel. The goroutines run at any time and in any order:
-- the list says which sends are tried.
pub record Hub (W : Type 0) : Type 0 where
  pub room : RoomHub
  pub db : Db
  pub guild_updates : List Uuid
  pub manager : Manager W
  pub sent : List (ℕ × SseEvent)

pub data HubError : Type 0 where
  language_not_found database_error build_failed : HubError

-- A handler returns, returns an error, or never returns.
pub data Outcome (W A : Type 0) : Type 0 where
  done : A → Hub W → Outcome W A
  failed : HubError → Hub W → Outcome W A
  blocked : Outcome W A

abbrev pub Handler : Type 0 → Type 0 → Type 0
Handler W A = Hub W → Outcome W A

abbrev pub continue : {W A B : Type 0} → Outcome W A → (A → Handler W B) → Outcome W B
continue (done a h) f = f a h
continue (failed e h) f = failed e h
continue blocked f = blocked

infixl 5 ◌>>=◌ ◌>>◌
abbrev pub ◌>>=◌ : {W A B : Type 0} → Handler W A → (A → Handler W B) → Handler W B
◌>>=◌ m f h = continue (m h) f

abbrev pub ◌>>◌ : {W B : Type 0} → Handler W (Unit {0}) → Handler W B → Handler W B
m >> k = m >>= λ _. k

abbrev pub pure : {W A : Type 0} → A → Handler W A
pure a h = done a h

abbrev pub guard : {W : Type 0} → Bool → HubError → Handler W (Unit {0})
guard true e h = done tt h
guard false e h = failed e h

-- A query whose error the handler looks at itself.
abbrev pub attempt : {W A : Type 0} → Query A → Handler W (QueryResult A)
attempt q h = let (r, db) = q h.db in done r (record h { db = db })

abbrev pub or_fail : {W A : Type 0} → QueryResult A → Handler W A
or_fail (ok a) h = done a h
or_fail no_rows h = failed database_error h
or_fail query_error h = failed database_error h

-- A query whose error the handler returns.
abbrev pub run : {W A : Type 0} → Query A → Handler W A
run q = attempt q >>= or_fail

-- The capacity of RoomHub.Events and that of EventHub.GuildUpdateChan.
abbrev pub events_capacity : ℕ
events_capacity = 10

abbrev pub guild_capacity : ℕ
guild_capacity = 100

-- `r.Events <- e` in the goroutine that receives from the channel, as the only one that does: with
-- the buffer full nobody makes room, and the send blocks for ever.
abbrev pub send_event : {W : Type 0} → RoomEvent → Handler W (Unit {0})
send_event e h =
    if ltb (length h.room.events) events_capacity
    then done tt (record h { room = record h.room { events = h.room.events ++ e ∷ [] } })
    else blocked

-- The send on guildUpdateChan, with its default case.
abbrev pub notify_guild : {W : Type 0} → Handler W (Unit {0})
notify_guild h =
    if ltb (length h.guild_updates) guild_capacity
    then done tt (record h { guild_updates = h.guild_updates ++ h.room.event_id ∷ [] })
    else done tt h

-- dispatchEvent: one send for each listener. The goroutine reads the listeners when it runs; here it
-- reads them at once, before a player joins or leaves.
unfoldable pub dispatch_event : {W : Type 0} → SseEvent → Handler W (Unit {0})
dispatch_event e h =
    done tt (record h {
      sent = h.sent ++ map (λ (listener : Uuid × ℕ). (listener.1, e)) h.room.listeners;
    })

-- dispatchEventToPlayer: one send, if the player listens.
unfoldable pub dispatch_event_to_player : {W : Type 0} → SseEvent → Uuid → Handler W (Unit {0})
dispatch_event_to_player e player h = elim (lookup player h.room.listeners) [
  | none ↦ done tt h
  | some channel ↦ done tt (record h { sent = h.sent ++ (channel, e) ∷ [] })
]
