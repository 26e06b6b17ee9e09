-- ===== src/Hub/Accepted/Runs.antt =====
-- The statements of processSolutionResult for an accepted solution, one after another.
use rogue_learn_code_battle.Base.{
  ℕ, ◌+◌, ◌≡◌, refl, ap, ◌∙◌, true, false, ◌&&◌, some, List, [], ◌∷◌, ◌++◌, map, length, ltb, leb,
  ◌==◌, any, keep, find, if◌then◌else◌, Bool-cases, inl, inr,
}
use rogue_learn_code_battle.Store.Models.{Uuid, RoomPlayer, Submission, SubmissionStatus, accepted}
use rogue_learn_code_battle.Store.Db.{Db, Query, QueryResult, Transport, ok, statement, IsUp}
use rogue_learn_code_battle.Store.Players.{
  at_key, int4_limit, add_score, place_players, sort_rows, add_room_player_score,
  calculate_room_leaderboard, get_room_players,
}
use rogue_learn_code_battle.Store.Submissions.{set_status, update_submission_status}
use rogue_learn_code_battle.Events.{
  EventType, SolutionResult, SseEvent, RoomLeaderboardEntry, text, entries,
}
use rogue_learn_code_battle.Hub.Exec.{
  pure, Hub, RoomHub, Outcome, Handler, continue, done, ◌>>=◌, ◌>>◌, run, notify_guild,
  guild_capacity, dispatch_event,
}
use rogue_learn_code_battle.Hub.Defs.{
  entry_of, sse, is_accepted, calculate_leaderboard, get_room_leaderboard_entries, accept_solution,
  process_solution_result,
}

-- A statement on a connection that holds.
statement-up : {A : Type 0} (q : Query A) (db : Db) → IsUp db → statement q db ≡ q db
statement-up q db up = rw up refl

-- One event to every listener of the room.
abbrev pub to_all : RoomHub → SseEvent → List (ℕ × SseEvent)
to_all room e = map (λ (listener : Uuid × ℕ). (listener.1, e)) room.listeners

-- The rows after the points are added and the places computed.
abbrev pub scored_rows : SolutionResult → Uuid → Db → List RoomPlayer
scored_rows event room db = place_players room (
    add_score event.score event.solution_submitted.room_id event.solution_submitted.player_id
      db.room_players)

-- A query that is known to return rows.
run-ok :
    {W A : Type 0} (q : Query A) (h : Hub W) {a : A} {db : Db}
    → q h.db ≡ (ok a, db)
    → run q h ≡ done a (record h { db = db })
run-ok q h e = rw e refl

-- The channel of guild updates after a notification.
abbrev pub notified : {W : Type 0} → Hub W → List Uuid
notified h =
    if ltb (length h.guild_updates) guild_capacity
    then h.guild_updates ++ h.room.event_id ∷ []
    else h.guild_updates

notify_guild-done :
    {W : Type 0} (h : Hub W) → notify_guild h ≡ done tt (record h { guild_updates = notified h })
notify_guild-done h = elim (Bool-cases (ltb (length h.guild_updates) guild_capacity)) [
  | inl room ↦ rw room refl
  | inr full ↦ rw full refl
]

continue-done :
    {W A B : Type 0} {r : Outcome W A} (f : A → Handler W B) {a : A} {h : Hub W}
    → r ≡ done a h
    → continue r f ≡ f a h
continue-done f e = rw e refl

calculate_room_leaderboard-up :
    (room : Uuid) (db : Db)
    → IsUp db
    → calculate_room_leaderboard room db
      ≡ (ok tt, record db { room_players = place_players room db.room_players })
unfolding calculate_room_leaderboard
calculate_room_leaderboard-up room db up = rw up refl

get_room_players-up :
    (room : Uuid) (db : Db)
    → IsUp db
    → get_room_players room db
      ≡ (ok (sort_rows (keep (λ p. p.room_id == room) db.room_players)), db)
unfolding get_room_players
get_room_players-up room db up = rw up refl

update_submission_status-up :
    (id : Uuid) (status : SubmissionStatus) (db : Db) (s : Submission)
    → IsUp db
    → find (λ t. t.id == id) db.submissions ≡ some s
    → update_submission_status id status db ≡ (
      ok (record s { status = status }),
      record db { submissions = set_status id status db.submissions },
    )
unfolding update_submission_status
update_submission_status-up id status db s up there =
    rw (up, statement, there)
      (ap
        (λ (faults : List Transport). (
          ok (record s { status = status }),
          record db { submissions = set_status id status db.submissions; faults = faults },
        ))
        up)

module _ {W : Type 0} (h : Hub W) (up : IsUp h.db) where
  leaderboard-done :
      calculate_leaderboard h
      ≡ done (ok tt) (record h {
        db = record h.db { room_players = place_players h.room.room_id h.db.room_players };
      })
  unfolding calculate_leaderboard
  leaderboard-done = rw (calculate_room_leaderboard-up h.room.room_id h.db up) refl

  board-done :
      get_room_leaderboard_entries h
      ≡ done
          (map entry_of (sort_rows (keep (λ p. p.room_id == h.room.room_id) h.db.room_players)))
          h
  unfolding get_room_leaderboard_entries
  board-done = rw (get_room_players-up h.room.room_id h.db up) refl

module _ {W : Type 0} (event : SolutionResult) (h : Hub W) (up : IsUp h.db) where
  add_score_up :
      any
          (λ p.
            at_key event.solution_submitted.room_id event.solution_submitted.player_id p
            && leb int4_limit (p.score + event.score))
          h.db.room_players
        ≡ false
      → add_room_player_score event.score event.solution_submitted.room_id
          event.solution_submitted.player_id h.db
        ≡ (
          ok tt,
          record h.db {
            room_players =
                add_score event.score event.solution_submitted.room_id
                  event.solution_submitted.player_id h.db.room_players;
          },
        )
  unfolding add_room_player_score
  add_score_up fits = rw (up, fits) refl

  pub process_solution_result-runs :
      is_accepted event.status ≡ true
      → any
          (λ p.
            at_key event.solution_submitted.room_id event.solution_submitted.player_id p
            && leb int4_limit (p.score + event.score))
          h.db.room_players
        ≡ false
      → (s : Submission)
      → find (λ t. t.id == event.solution_submitted.submission_id) h.db.submissions ≡ some s
      → (h' : Hub W) × (process_solution_result event h ≡ done tt h')
        × (h'.db.room_players ≡ scored_rows event h.room.room_id h.db)
        × (h'.db.submissions
            ≡ set_status event.solution_submitted.submission_id accepted h.db.submissions)
        × (h'.guild_updates ≡ notified h)
        × (h'.sent
            ≡ (h.sent ++ to_all h.room (sse EventType.correct_solution_submitted (text [])))
              ++ to_all h.room (
                  sse EventType.leaderboard_updated (
                    entries (
                      map entry_of (
                        sort_rows (
                          keep
                            (λ p. p.room_id == h.room.room_id)
                            (scored_rows event h.room.room_id h.db)))))))
        × (h'.room ≡ h.room)
  unfolding process_solution_result accept_solution dispatch_event
  process_solution_result-runs ok_status fits s there =
      let last1 : Submission → Handler W (Unit {0}) = λ _. pure tt in
      let last2 : List RoomLeaderboardEntry → Handler W (Unit {0}) = λ board.
        dispatch_event (sse EventType.leaderboard_updated (entries board))
        >> (run (update_submission_status event.solution_submitted.submission_id accepted)
            >>= last1) in
      let last3 : QueryResult (Unit {0}) → Handler W (Unit {0}) = λ _.
        dispatch_event (sse EventType.correct_solution_submitted (text []))
        >> (get_room_leaderboard_entries >>= last2) in
      let h1 : Hub W = record h {
        db = record h.db {
          room_players =
              add_score event.score event.solution_submitted.room_id
                event.solution_submitted.player_id h.db.room_players;
        };
      } in
      let h2 : Hub W = record h1 { guild_updates = notified h } in
      let h3 : Hub W = record h2 {
        db = record h1.db { room_players = place_players h.room.room_id h1.db.room_players };
      } in
      let h4 : Hub W = record h3 {
        sent = h.sent ++ to_all h.room (sse EventType.correct_solution_submitted (text []));
      } in
      let board =
        map entry_of (sort_rows (keep (λ p. p.room_id == h.room.room_id) h3.db.room_players)) in
      let h5 : Hub W = record h4 {
        sent = h4.sent ++ to_all h.room (sse EventType.leaderboard_updated (entries board));
      } in
      let h6 : Hub W = record h5 {
        db = record h5.db {
          submissions = set_status event.solution_submitted.submission_id accepted h.db.submissions;
        };
      } in
      (
        h6,
        rw ok_status (
            continue-done _ (
              run-ok
                (add_room_player_score event.score event.solution_submitted.room_id
                  event.solution_submitted.player_id)
                h (add_score_up fits))
            ∙ continue-done _ (notify_guild-done h1)
            ∙ continue-done last3 (leaderboard-done h2 up)
            ∙ continue-done last2 (board-done h4 up)
            ∙ continue-done last1 (
                run-ok (update_submission_status event.solution_submitted.submission_id accepted) h5
                  (update_submission_status-up event.solution_submitted.submission_id accepted h5.db
                    s up there))),
        refl,
        refl,
        refl,
        refl,
        refl,
      )
