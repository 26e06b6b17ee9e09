-- ===== src/Hub/Accepted.antt =====
-- processSolutionResult for an accepted solution: the points, the places and what is sent.
pub mod Runs
use rogue_learn_code_battle.Hub.Accepted.Runs.{
  to_all, scored_rows, notified, process_solution_result-runs,
}
use rogue_learn_code_battle.Base.{
  ℕ, ◌+◌, ◌≡◌, refl, ap, ◌∙◌, Bool, true, false, ◌&&◌, some, List, [], ◌∷◌, ◌++◌, map, length, ltb,
  leb, ◌==◌, any, keep, find, if◌then◌else◌, Bool-cases, inl, inr,
}
use rogue_learn_code_battle.Store.Models.{Uuid, RoomPlayer, Submission, SubmissionStatus, accepted}
use rogue_learn_code_battle.Store.Db.{Db, Query, QueryResult, Transport, ok, statement, IsUp}
use rogue_learn_code_battle.Store.Players.{
  at_key, int4_limit, add_score, place_players, sort_rows, add_room_player_score,
  calculate_room_leaderboard, get_room_players,
}
use mathlib.Core.Path.{subst}
use rogue_learn_code_battle.Base.{
  ◌≢◌, ◌↔◌, ◌<◌, ◌≤◌, sym, Option, none, Text, Has, tally, tally-map, tally_ext, tally-keep, arith,
  lt→ltb,
}
use rogue_learn_code_battle.Store.Players.Ranks.{StandsBefore, place_players_order}
use rogue_learn_code_battle.Store.Players.Sorted.{
  IsDescending, score_list, tally-sort_rows, sort_rows-IsDescending,
}
use rogue_learn_code_battle.Store.Players.Points.{scores, Gained, add_score-Gained}
use rogue_learn_code_battle.Hub.Scores.Blocks.{scores-place_players}
use rogue_learn_code_battle.Store.Submissions.{set_status, update_submission_status}
use rogue_learn_code_battle.Events.{
  EventType, SolutionResult, SseEvent, RoomLeaderboardEntry, text, entries,
}
use rogue_learn_code_battle.Hub.Exec.{
  pure, Hub, RoomHub, Outcome, Handler, continue, done, ◌>>=◌, ◌>>◌, run, notify_guild,
  guild_capacity, dispatch_event,
}
use rogue_learn_code_battle.Hub.Defs.{
  entry_of, sse, is_accepted, calculate_leaderboard, get_room_leaderboard_entries, accept_solution,
  process_solution_result,
}

-- The status of a submission.
abbrev pub status_of : Uuid → List Submission → Option SubmissionStatus
status_of id [] = none
status_of id (s ∷ subs) = let rest = status_of id subs in if s.id == id then some s.status else rest

set_status-mine :
    (id : Uuid) (status : SubmissionStatus) (subs : List Submission) {s : Submission}
    → find (λ t. t.id == id) subs ≡ some s
    → status_of id (set_status id status subs) ≡ some status
unfolding set_status
set_status-mine id status [] h = cc
set_status-mine id status (t ∷ subs) {s} h = elim (Bool-cases (t.id == id)) [
  | inl same ↦ ground (arith, same)
  | inr other ↦ ground (arith, other, set_status-mine id status subs {s = s} (rw other at h))
]

set_status-theirs :
    (id other : Uuid) (status : SubmissionStatus) (subs : List Submission)
    → other ≢ id
    → status_of other (set_status id status subs) ≡ status_of other subs
unfolding set_status
set_status-theirs id other status [] ne = refl
set_status-theirs id other status (t ∷ subs) ne =
    ground (arith, ne, set_status-theirs id other status subs ne)

-- The entries of a room.
abbrev board_of_rows : Uuid → List RoomPlayer → List RoomLeaderboardEntry
board_of_rows room rows = map entry_of (sort_rows (keep (λ p. p.room_id == room) rows))

abbrev pub place_or_zero : Option ℕ → ℕ
place_or_zero none = 0
place_or_zero (some n) = n

tally-board :
    (room : Uuid) (f : Text → ℕ → ℕ → Bool) (rows : List RoomPlayer)
    → tally
        (λ (e : RoomLeaderboardEntry). f e.player_name e.score e.place)
        (board_of_rows room rows)
      ≡ tally
          (λ (p : RoomPlayer). p.room_id == room && f p.username p.score (place_or_zero p.place))
          rows
tally-board room f rows =
    tally-map _ entry_of (sort_rows (keep (λ p. p.room_id == room) rows))
    ∙ (tally-sort_rows _ (keep (λ p. p.room_id == room) rows)
        ∙ (tally-keep _ _ rows
            ∙ tally_ext
                (λ x.
                  x.room_id == room
                  && f (entry_of x).player_name (entry_of x).score (entry_of x).place)
                _ (λ p. ground arith) rows))

score_list-entries :
    (rows : List RoomPlayer)
    → map (λ (e : RoomLeaderboardEntry). e.score) (map entry_of rows) ≡ score_list rows
score_list-entries [] = refl
score_list-entries (p ∷ rows) = ap (λ l. p.score ∷ l) (score_list-entries rows)

board-IsDescending :
    (room : Uuid) (rows : List RoomPlayer)
    → IsDescending (map (λ (e : RoomLeaderboardEntry). e.score) (board_of_rows room rows))
board-IsDescending room rows =
    let kept = sort_rows (keep (λ p. p.room_id == room) rows) in
    subst IsDescending (sym (score_list-entries kept)) (sort_rows-IsDescending _)

-- What an accepted solution does.
pub record Rewarded {W : Type 0} (event : SolutionResult) (h h' : Hub W) : Type 0 where
  pub points :
      Gained event.score event.solution_submitted.room_id event.solution_submitted.player_id
        h.db.room_players h'.db.room_players
  pub ordered :
      (p q : RoomPlayer)
      → Has p h'.db.room_players
      → Has q h'.db.room_players
      → p.room_id ≡ h.room.room_id
      → q.room_id ≡ h.room.room_id
      → (a : ℕ) × (b : ℕ) × (p.place ≡ some a) × (q.place ≡ some b) × (StandsBefore p q ↔ (a < b))
  pub status : status_of event.solution_submitted.submission_id h'.db.submissions ≡ some accepted
  pub other_status :
      (id : Uuid)
      → id ≢ event.solution_submitted.submission_id
      → status_of id h'.db.submissions ≡ status_of id h.db.submissions
  pub told_guild :
      length h.guild_updates < 100 → h'.guild_updates ≡ h.guild_updates ++ h.room.event_id ∷ []
  pub full_guild : 100 ≤ length h.guild_updates → h'.guild_updates ≡ h.guild_updates
  pub board : List RoomLeaderboardEntry
  pub sent :
      h'.sent
      ≡ (h.sent
          ++ to_all h.room
              (record { event_type = EventType.correct_solution_submitted; content = text [] }))
        ++ to_all h.room
            (record { event_type = EventType.leaderboard_updated; content = entries board })
  pub entries_of :
      (f : Text → ℕ → ℕ → Bool)
      → tally (λ (e : RoomLeaderboardEntry). f e.player_name e.score e.place) board
        ≡ tally
            (λ (p : RoomPlayer).
              p.room_id == h.room.room_id && f p.username p.score (place_or_zero p.place))
            h'.db.room_players
  pub descending : IsDescending (map (λ (e : RoomLeaderboardEntry). e.score) board)
  pub same_room : h'.room ≡ h.room

module _ {W : Type 0} (event : SolutionResult) (h : Hub W) (up : IsUp h.db) where
  -- With the connection up, the new score an integer of four bytes and the submission in the table,
  -- processSolutionResult handles an accepted solution without an error. The points are added to
  -- the submitter's score in the room of the submission and every other score stays; the players of
  -- the room have places in the order of score and joining time; the submission is marked accepted
  -- and every other keeps its status; the guild is notified if its channel has room; and when the
  -- goroutines that dispatch run before a listener joins or leaves, every listener is sent that a
  -- correct solution came in, and a leaderboard with an entry for each player of the room, by
  -- descending score.
  pub process_solution_result-scores :
      is_accepted event.status ≡ true
      → any
          (λ p.
            at_key event.solution_submitted.room_id event.solution_submitted.player_id p
            && leb int4_limit (p.score + event.score))
          h.db.room_players
        ≡ false
      → (s : Submission)
      → find (λ t. t.id == event.solution_submitted.submission_id) h.db.submissions ≡ some s
      → (h' : Hub W) × (process_solution_result event h ≡ done tt h') × Rewarded event h h'
  process_solution_result-scores ok_status fits s there =
      let (h', ran, rows, subs, guild, sent, room) =
        process_solution_result-runs event h up ok_status fits s there in
      let e = event.solution_submitted in
      let added = add_score event.score e.room_id e.player_id h.db.room_players in
      (
        h',
        ran,
        record {
          points =
              add_score-Gained event.score e.room_id e.player_id h.db.room_players
                h'.db.room_players (ap scores rows ∙ scores-place_players h.room.room_id added);
          ordered = λ p q hp hq rp rq.
              place_players_order h.room.room_id added p q (subst (Has p) rows hp)
                (subst (Has q) rows hq) rp rq;
          status =
              ap (status_of e.submission_id) subs
              ∙ set_status-mine e.submission_id accepted h.db.submissions there;
          other_status = λ id ne.
              ap (status_of id) subs
              ∙ set_status-theirs e.submission_id id accepted h.db.submissions ne;
          told_guild = λ space. guild ∙ rw (lt→ltb (length h.guild_updates) 100 space) refl;
          full_guild = λ full. guild ∙ ground (arith, full);
          board = board_of_rows h.room.room_id (scored_rows event h.room.room_id h.db);
          sent = sent;
          entries_of = λ f.
              tally-board h.room.room_id f (scored_rows event h.room.room_id h.db)
              ∙ ap (tally _) (sym rows);
          descending = board-IsDescending h.room.room_id (scored_rows event h.room.room_id h.db);
          same_room = room;
        },
      )
