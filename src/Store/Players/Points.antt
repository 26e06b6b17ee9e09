-- ===== src/Store/Players/Points.antt =====
-- The score of a player in a room, and what adding points to it does to the scores of all players.
use rogue_learn_code_battle.Base.{
  ℕ, ◌+◌, ◌≡◌, ◌∙◌, refl, ap, Option, none, some, List, [], ◌∷◌, map, arith, ◌==◌, ◌&&◌,
  if◌then◌else◌,
}
use rogue_learn_code_battle.Store.Models.{Uuid, RoomPlayer}
use rogue_learn_code_battle.Store.Players.{add_score}

-- Who has which score in which room.
abbrev pub scores : List RoomPlayer → List (Uuid × Uuid × ℕ)
scores = map (λ p. (p.room_id, p.user_id, p.score))

abbrev score_in : Uuid → Uuid → List (Uuid × Uuid × ℕ) → Option ℕ
score_in room user [] = none
score_in room user ((r, u, s) ∷ rows) =
    let rest = score_in room user rows in if r == room && u == user then some s else rest

-- The score of a player in a room.
abbrev pub score_of : Uuid → Uuid → List RoomPlayer → Option ℕ
score_of room user rows = score_in room user (scores rows)

abbrev pub more : ℕ → Option ℕ → Option ℕ
more points none = none
more points (some s) = some (s + points)

-- One player has the points more in one room; every other score is as it was.
pub record Gained (points : ℕ) (room user : Uuid) (rows rows' : List RoomPlayer) : Type 0 where
  pub gained : score_of room user rows' ≡ more points (score_of room user rows)
  pub others : (r u : Uuid) → ((r ≡ room) × (u ≡ user) → ⊥) → score_of r u rows' ≡ score_of r u rows

pub score_of-scores :
    (room user : Uuid) (rows rows' : List RoomPlayer)
    → scores rows ≡ scores rows'
    → score_of room user rows ≡ score_of room user rows'
score_of-scores room user rows rows' e = ap (score_in room user) e

module _ (points : ℕ) (room user : Uuid) where
  mine :
      (rows : List RoomPlayer)
      → score_of room user (add_score points room user rows) ≡ more points (score_of room user rows)
  unfolding add_score
  mine [] = refl
  mine (p ∷ rows) = ground (arith, mine rows)

  theirs :
      (r u : Uuid) (rows : List RoomPlayer)
      → ((r ≡ room) × (u ≡ user) → ⊥)
      → score_of r u (add_score points room user rows) ≡ score_of r u rows
  unfolding add_score
  theirs r u [] ne = refl
  theirs r u (p ∷ rows) ne = ground (arith, theirs r u rows ne, ne)

  pub add_score-Gained :
      (rows rows' : List RoomPlayer)
      → scores rows' ≡ scores (add_score points room user rows)
      → Gained points room user rows rows'
  add_score-Gained rows rows' e = record {
    gained = score_of-scores room user rows' (add_score points room user rows) e ∙ mine rows;
    others = λ r u ne.
        score_of-scores r u rows' (add_score points room user rows) e ∙ theirs r u rows ne;
  }
