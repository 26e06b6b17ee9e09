-- ===== src/Store/Players/Ranks.antt =====
-- CalculateRoomLeaderboard: what the places say.
use rogue_learn_code_battle.Base.{
  ℕ, ◌+◌, ◌≤◌, ◌<◌, ◌≡◌, ◌↔◌, ◌⊎◌, refl, sym, ap, ◌∙◌, inl, inr, true, false, ◌&&◌, some, List, [],
  ◌∷◌, map, arith, Has, tally, tally-lt, tally_ext, tally-map, ◌==◌, if◌then◌else◌, Bool-cases,
}
use rogue_learn_code_battle.Store.Models.{Uuid, RoomPlayer}
use rogue_learn_code_battle.Store.Players.{beats, rank, place_players}

beats_trans : (p q r : RoomPlayer) → beats p q ≡ true → beats q r ≡ true → beats p r ≡ true
beats_trans p q r h k = ground arith

beats_irrefl : (p : RoomPlayer) → beats p p ≡ false
beats_irrefl p = ground arith

-- Of two players that tie, whoever beats the one beats the other.
beats_tie : (x p q : RoomPlayer) → beats p q ≡ false → beats q p ≡ false → beats x p ≡ beats x q
beats_tie x p q h k = ground arith

module _ (room : Uuid) (players : List RoomPlayer) (p q : RoomPlayer) where
  rank-lt :
      Has p players
      → p.room_id ≡ room
      → beats p q ≡ true
      → rank room players p < rank room players q
  unfolding rank
  rank-lt here in_room h = omega (
    arith,
    tally-lt (λ x. x.room_id == room && beats x p) (λ x. x.room_id == room && beats x q)
        (λ x e. ground (arith, beats_trans x p q)) p players here (ground (arith, beats_irrefl p))
        (ground arith),
  )

  rank-eq : beats p q ≡ false → beats q p ≡ false → rank room players p ≡ rank room players q
  unfolding rank
  rank-eq h k = ap (λ n. n + 1) (tally_ext _ _ (λ x. ground (arith, beats_tie x p q)) players)

-- Of two players of the room the one stands before the other exactly when their ranks say so.
rank_order :
    (room : Uuid) (players : List RoomPlayer) (p q : RoomPlayer)
    → Has p players
    → Has q players
    → p.room_id ≡ room
    → q.room_id ≡ room
    → (beats p q ≡ true) ↔ (rank room players p < rank room players q)
rank_order room players p q hp hq rp rq = (
  rank-lt room players p q hp rp,
  λ lt. elim (Bool-cases (beats p q)) [
    | inl h ↦ h
    | inr h ↦ elim (Bool-cases (beats q p)) [
      | inl k ↦ absurd (omega (arith, rank-lt room players q p hq rq k))
      | inr k ↦ absurd (omega (arith, rank-eq room players p q h k))
    ]
  ],
)

-- A rank is at least 1 and at most the number of players in the room.
rank_bounds :
    (room : Uuid) (players : List RoomPlayer) (p : RoomPlayer)
    → Has p players
    → p.room_id ≡ room
    → (1 ≤ rank room players p) × (rank room players p ≤ tally (λ x. x.room_id == room) players)
unfolding rank
rank_bounds room players p here in_room = (
  omega arith,
  tally-lt (λ x. x.room_id == room && beats x p) (λ x. x.room_id == room) (λ x e. ground arith) p
      players here (ground (arith, beats_irrefl p)) (ground arith),
)

-- The row that place_players makes of a row.
abbrev placed : Uuid → List RoomPlayer → RoomPlayer → RoomPlayer
placed room players p =
    if p.room_id == room then record p { place = some (rank room players p) } else p

-- A rank reads the room, score and joining time of the rows, which placing leaves alone.
rank-placed :
    (room : Uuid) (players all : List RoomPlayer) (q : RoomPlayer)
    → rank room (map (placed room all) players) q ≡ rank room players q
unfolding rank
rank-placed room players all q =
    ap (λ n. n + 1)
      (tally-map (λ p. p.room_id == room && beats p q) (placed room all) players
        ∙ tally_ext _ _ (λ x. ground arith) players)

rank-placed_self :
    (room : Uuid) (players all : List RoomPlayer) (q : RoomPlayer)
    → rank room players (placed room all q) ≡ rank room players q
unfolding rank
rank-placed_self room players all q = ap (λ n. n + 1) (tally_ext _ _ (λ x. ground arith) players)

placed-place :
    (room : Uuid) (players all : List RoomPlayer) (p : RoomPlayer)
    → Has p (map (placed room all) players)
    → p.room_id ≡ room
    → p.place ≡ some (rank room all p)
placed-place room [] all p h in_room = elim h [ ]
placed-place room (x ∷ players) all p (inl e) in_room = ground (
  arith,
  ap (λ (r : RoomPlayer). r.place) e,
  ap (λ (r : RoomPlayer). r.room_id) e,
  ap (rank room all) e,
  rank-placed_self room all all x,
)
placed-place room (x ∷ players) all p (inr h) in_room = placed-place room players all p h in_room

-- A larger score, or the same and an earlier joining.
abbrev pub StandsBefore : RoomPlayer → RoomPlayer → Type 0
StandsBefore p q = (q.score < p.score) ⊎ ((p.score ≡ q.score) × (p.joined_at < q.joined_at))

beats-StandsBefore : (p q : RoomPlayer) → (beats p q ≡ true) ↔ StandsBefore p q
beats-StandsBefore p q = ground arith

-- After the leaderboard of a room has been computed, the players of the room have places, and one
-- has a smaller place than another exactly when its score is larger, or it is the same and it
-- joined earlier.
pub place_players_order :
    (room : Uuid) (players : List RoomPlayer) (p q : RoomPlayer)
    → let after = place_players room players in
      Has p after
      → Has q after
      → p.room_id ≡ room
      → q.room_id ≡ room
      → (a : ℕ) × (b : ℕ) × (p.place ≡ some a) × (q.place ≡ some b) × (StandsBefore p q ↔ (a < b))
unfolding place_players
place_players_order room players p q hp hq rp rq =
    let after = map (placed room players) players in
    (
      rank room after p,
      rank room after q,
      placed-place room players players p hp rp
          ∙ ap some (sym (rank-placed room players players p)),
      placed-place room players players q hq rq
          ∙ ap some (sym (rank-placed room players players q)),
      let (forth, back) = rank_order room after p q hp hq rp rq in
          let (stands, beat) = beats-StandsBefore p q in
          (λ h. forth (beat h), λ lt. stands (back lt)),
    )

placed-placed :
    (room : Uuid) (all all' rows : List RoomPlayer)
    → ((p : RoomPlayer) → rank room all' p ≡ rank room all p)
    → map (placed room all') (map (placed room all) rows) ≡ map (placed room all) rows
placed-placed room all all' [] same = refl
placed-placed room all all' (x ∷ rows) same = ground (
  arith,
  same (placed room all x),
  rank-placed_self room all all x,
  placed-placed room all all' rows same,
)

-- Computing the leaderboard again changes nothing.
place_players_idem :
    (room : Uuid) (players : List RoomPlayer)
    → place_players room (place_players room players) ≡ place_players room players
unfolding place_players
place_players_idem room players =
    placed-placed room players (map (placed room players) players) players
      (rank-placed room players players)
