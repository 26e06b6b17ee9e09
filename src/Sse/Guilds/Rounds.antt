-- ===== src/Sse/Guilds/Rounds.antt =====
-- Whom a guild leaderboard reaches.
use rogue_learn_code_battle.Base.{
  ℕ, ◌≡◌, ◌∙◌, ◌↔◌, refl, sym, ap, Bool, ◌&&◌, some, List, [], ◌∷◌, ◌++◌, Has, All, tally, map,
  lookup, nat_eq, ◌==◌,
}
use mathlib.Core.Path.{subst}
use rogue_learn_code_battle.Store.Models.{Uuid}
use rogue_learn_code_battle.Store.Db.{ok}
use rogue_learn_code_battle.Sse.Spectators.{
  EventListeners, clients_of, dispatch, dispatch_event_to_event, new_event_listeners,
}
use rogue_learn_code_battle.Sse.Spectators.Views.{
  Change, apply_all, nobody, after_changes, dispatch_event_to_event-sends,
  dispatch_event_to_event-reaches,
}
use rogue_learn_code_battle.Sse.Guilds.Ranked.{
  IsRanked, guild_leaderboard-IsRanked, tally-guild_leaderboard,
}
use rogue_learn_code_battle.Sse.Guilds.{
  EventHub, GuildLeaderboardEntry, guild_leaderboard, dispatch_leaderboard, start_round,
}

abbrev pub Send : Type 0
Send = ℕ × List GuildLeaderboardEntry

start_round-dispatches :
    (e : EventHub) (event : Uuid) (rest : List Uuid)
    → e.guild_update_chan ≡ event ∷ rest
    → e.faults ≡ []
    → start_round e ≡ record e {
      guild_update_chan = rest;
      spectators =
          dispatch event (guild_leaderboard event e.guild_leaderboard_entries) e.spectators;
    }
unfolding start_round
start_round-dispatches e event rest here up =
    rw (here, up, start_round)
      (ap
        (λ (faults : List Bool). dispatch_leaderboard event (
          ok (guild_leaderboard event e.guild_leaderboard_entries),
          record e { guild_update_chan = rest; faults = faults },
        ))
        up)

same_payload :
    {E : Type 0} (sse_event : E) (clients : List (Uuid × ℕ))
    → All
        (λ (send : ℕ × E). send.1 ≡ sse_event)
        (map (λ (listener : Uuid × ℕ). (listener.1, sse_event)) clients)
same_payload sse_event [] = tt
same_payload sse_event (c ∷ clients) = (refl, same_payload sse_event clients)

dispatched_payload :
    {E : Type 0} (event : Uuid) (sse_event : E) (m : EventListeners)
    → All (λ (send : ℕ × E). send.1 ≡ sse_event) (dispatch_event_to_event event sse_event m)
dispatched_payload event sse_event m =
    subst (All (λ send. send.1 ≡ sse_event)) (sym (dispatch_event_to_event-sends event sse_event m))
      (same_payload sse_event (clients_of (lookup event m)))

-- The oldest guild update is taken by a round of EventHub.Start while the connection holds: the
-- other updates and the rooms stay, and new sends stand behind those that were to be tried. Each
-- carries one board, which has each entry of the update's event as often as the table, no entry of
-- another event, and no lower rank behind a higher one. The new sends go to the channels of the
-- clients whose last change for this event was to register, and to no other.
pub start_round-reaches :
    (e : EventHub) (event : Uuid) (rest : List Uuid) (changes : List Change)
    → e.guild_update_chan ≡ event ∷ rest
    → e.faults ≡ []
    → e.spectators.listeners ≡ apply_all changes new_event_listeners
    → let e' = start_round e in
      (board : List GuildLeaderboardEntry) × (new : List Send) × ((f : GuildLeaderboardEntry → Bool)
        → tally f board ≡ tally (λ x. x.event_id == event && f x) e.guild_leaderboard_entries)
      × IsRanked board
      × (e'.spectators.sends ≡ e.spectators.sends ++ new)
      × All (λ (send : Send). send.1 ≡ board) new
      × (e'.guild_update_chan ≡ rest)
      × (e'.rooms ≡ e.rooms)
      × ((channel : ℕ)
          → Has {A = Send} (channel, board) new
            ↔ ((client : Uuid) × (after_changes changes nobody event client ≡ some channel)))
unfolding dispatch
start_round-reaches e event rest changes here up listening =
    let board = guild_leaderboard event e.guild_leaderboard_entries in
    let after = start_round-dispatches e event rest here up in
    (
      board,
      dispatch_event_to_event event board (apply_all changes new_event_listeners),
      λ f. tally-guild_leaderboard f event e.guild_leaderboard_entries,
      guild_leaderboard-IsRanked event e.guild_leaderboard_entries,
      ap (λ (e : EventHub). e.spectators.sends) after
          ∙ ap (λ m. e.spectators.sends ++ dispatch_event_to_event event board m) listening,
      dispatched_payload event board (apply_all changes new_event_listeners),
      ap (λ (e : EventHub). e.guild_update_chan) after,
      ap (λ (e : EventHub). e.rooms) after,
      λ channel. dispatch_event_to_event-reaches changes event board channel,
    )
