-- ===== src/Hub/Scores/Blocks.antt =====
-- The blocks of the handlers that leave the scores of the players as they are.
use rogue_learn_code_battle.Base.{
  ℕ, ◌≡◌, refl, ◌∙◌, inl, inr, List, [], ◌∷◌, map, arith, length, ltb, Bool-cases,
}
use rogue_learn_code_battle.Store.Models.{Uuid, RoomPlayer, SubmissionStatus}
use rogue_learn_code_battle.Store.Db.{Db, Query, QueryResult, ok, no_rows, query_error}
use rogue_learn_code_battle.Store.Players.{
  place_players, calculate_room_leaderboard, get_room_players,
}
use rogue_learn_code_battle.Store.Players.Points.{scores}
use rogue_learn_code_battle.Store.Submissions.{update_submission_status}
use rogue_learn_code_battle.Events.{SseEvent}
use rogue_learn_code_battle.Hub.Ensures.{Ensures, returned, errored, Ensures-bind}
use rogue_learn_code_battle.Hub.Exec.{
  Hub, Handler, ◌>>=◌, pure, attempt, or_fail, run, notify_guild, dispatch_event,
}
use rogue_learn_code_battle.Hub.Defs.{calculate_leaderboard, get_room_leaderboard_entries}

scores-map :
    (f : RoomPlayer → RoomPlayer)
    → ((p : RoomPlayer)
        → ◌≡◌ {A = Uuid × Uuid × ℕ}
            ((f p).room_id, (f p).user_id, (f p).score)
            (p.room_id, p.user_id, p.score))
    → (players : List RoomPlayer) → scores (map f players) ≡ scores players
scores-map f same [] = refl
scores-map f same (p ∷ ps) = λ i. same p i ∷ scores-map f same ps i

pub scores-place_players :
    (room : Uuid) (players : List RoomPlayer) → scores (place_players room players) ≡ scores players
unfolding place_players
scores-place_players room players = scores-map _ (λ p. ground arith) players

-- A block that leaves the scores as they are.
pub record KeepsScores {W A : Type 0} (m : Handler W A) : Type 0 where
  pub keeps :
      (s : List (Uuid × Uuid × ℕ)) (h : Hub W)
      → scores h.db.room_players ≡ s
      → Ensures
          (λ _ h'. scores h'.db.room_players ≡ s)
          (λ h'. scores h'.db.room_players ≡ s)
          ⊥
          (m h)

-- A query that leaves the scores as they are.
pub record SparesScores {A : Type 0} (q : Query A) : Type 0 where
  pub same : (db : Db) → scores (q db).1.room_players ≡ scores db.room_players

module _ {W : Type 0} where
  pub pure-KeepsScores : {A : Type 0} (a : A) → KeepsScores {W = W} (pure a)
  pure-KeepsScores a = record { keeps = λ s h e. returned e }

  pub bind-KeepsScores :
      {A B : Type 0} {m : Handler W A} {f : A → Handler W B}
      → KeepsScores m
      → ((a : A) → KeepsScores (f a))
      → KeepsScores (m >>= f)
  bind-KeepsScores {f = f} k l = record {
    keeps = λ s h e. Ensures-bind f (k.keeps s h e) (λ a h' e'. (l a).keeps s h' e');
  }

  attempt-KeepsScores :
      {A : Type 0} (q : Query A) → SparesScores q → KeepsScores {W = W} (attempt q)
  attempt-KeepsScores q spares = record { keeps = λ s h e. returned (spares.same h.db ∙ e) }

  or_fail-KeepsScores : {A : Type 0} (r : QueryResult A) → KeepsScores {W = W} (or_fail r)
  or_fail-KeepsScores (ok a) = record { keeps = λ s h e. returned e }
  or_fail-KeepsScores no_rows = record { keeps = λ s h e. errored e }
  or_fail-KeepsScores query_error = record { keeps = λ s h e. errored e }

  pub run-KeepsScores : {A : Type 0} (q : Query A) → SparesScores q → KeepsScores {W = W} (run q)
  run-KeepsScores q spares =
      bind-KeepsScores (attempt-KeepsScores q spares) (λ r. or_fail-KeepsScores r)

  pub dispatch-KeepsScores : (e : SseEvent) → KeepsScores {W = W} (dispatch_event e)
  unfolding dispatch_event
  dispatch-KeepsScores e = record { keeps = λ s h same. returned same }

  pub notify_guild-KeepsScores : KeepsScores {W = W} notify_guild
  notify_guild-KeepsScores = record {
    keeps = λ s h e. elim (Bool-cases (ltb (length h.guild_updates) 100)) [
      | inl room ↦ rw room (returned e)
      | inr full ↦ rw full (returned e)
    ];
  }

calculate_room_leaderboard-SparesScores :
    (room : Uuid) → SparesScores (calculate_room_leaderboard room)
unfolding calculate_room_leaderboard
calculate_room_leaderboard-SparesScores room = record {
  same = λ db. ground (arith, scores-place_players room db.room_players);
}

get_room_players-SparesScores : (room : Uuid) → SparesScores (get_room_players room)
unfolding get_room_players
get_room_players-SparesScores room = record { same = λ db. ground arith }

pub update_submission_status-SparesScores :
    (id : Uuid) (status : SubmissionStatus) → SparesScores (update_submission_status id status)
unfolding update_submission_status
update_submission_status-SparesScores id status = record { same = λ db. ground arith }

module _ {W : Type 0} where
  pub calculate_leaderboard-KeepsScores : KeepsScores {W = W} calculate_leaderboard
  unfolding calculate_leaderboard
  calculate_leaderboard-KeepsScores = record {
    keeps = λ s h e.
        (attempt-KeepsScores (calculate_room_leaderboard h.room.room_id)
            (calculate_room_leaderboard-SparesScores h.room.room_id)).keeps
          s h e;
  }

  pub get_room_leaderboard_entries-KeepsScores : KeepsScores {W = W} get_room_leaderboard_entries
  unfolding get_room_leaderboard_entries
  get_room_leaderboard_entries-KeepsScores =
      bind-KeepsScores
        (record {
          keeps = λ s h e.
              (run-KeepsScores (get_room_players h.room.room_id)
                  (get_room_players-SparesScores h.room.room_id)).keeps
                s h e;
        })
        (λ rows. pure-KeepsScores _)
