-- ===== src/Store/Players/Keys.antt =====
-- The key of room_players: no statement makes two rows of one room and user.
use rogue_learn_code_battle.Base.{
  ℕ, ◌≤◌, ◌≡◌, refl, ap, inl, inr, Bool, true, false, Option, none, List, [], ◌∷◌, map, arith, Text,
  any, keep, tally, tally_ext, tally-map, suc, Bool-cases, if◌then◌else◌,
}
use rogue_learn_code_battle.Store.Models.{Uuid, RoomPlayer, RoomPlayerState}
use rogue_learn_code_battle.Store.Db.{Db, Query, Transport, holds, breaks, loses, statement}
use rogue_learn_code_battle.Store.Players.{
  at_key, add_score, place_players, create_room_player, delete_room_player, add_room_player_score,
  calculate_room_leaderboard,
}

-- At most one row has a given room and user.
abbrev pub UniqueRows : List RoomPlayer → Type 0
UniqueRows rows = (room user : Uuid) → tally (at_key room user) rows ≤ 1

tally-keep : {A : Type 0} (f g : A → Bool) (xs : List A) → tally f (keep g xs) ≤ tally f xs
tally-keep f g [] = omega arith
tally-keep f g (x ∷ xs) = ground (arith, tally-keep f g xs)

tally-none : {A : Type 0} (f : A → Bool) (xs : List A) → any f xs ≡ false → tally f xs ≡ 0
tally-none f [] h = refl
tally-none f (x ∷ xs) h = ground (arith, tally-none f xs)

-- A change of the rows that keeps their keys.
UniqueRows-map :
    (f : RoomPlayer → RoomPlayer) (rows : List RoomPlayer)
    → ((room user : Uuid) (p : RoomPlayer) → at_key room user (f p) ≡ at_key room user p)
    → UniqueRows rows
    → UniqueRows (map f rows)
UniqueRows-map f rows same u room user = omega (
  arith,
  tally-map (at_key room user) f rows,
  tally_ext (λ p. at_key room user (f p)) (at_key room user) (same room user) rows,
  u room user,
)

same_key :
    (room user : Uuid) (p : RoomPlayer)
    → at_key room user p ≡ true
    → (p.room_id ≡ room) × (p.user_id ≡ user)
same_key room user p h = ground arith

UniqueRows-cons :
    (p : RoomPlayer) (rows : List RoomPlayer)
    → any (at_key p.room_id p.user_id) rows ≡ false
    → UniqueRows rows
    → UniqueRows (p ∷ rows)
UniqueRows-cons p rows new u room user = elim (Bool-cases (at_key room user p)) [
  | inr other ↦ ground (arith, u room user)
  | inl h ↦
      let (r, v) = same_key room user p h in
      omega (
        arith,
        tally-none (at_key p.room_id p.user_id) rows new,
        ap (λ k. tally (at_key k p.user_id) rows) r,
        ap (λ k. tally (at_key room k) rows) v,
        ap
            (λ (b : Bool).
              if b then suc (tally (at_key room user) rows) else tally (at_key room user) rows)
            h,
      )
]

UniqueRows-keep :
    (g : RoomPlayer → Bool) (rows : List RoomPlayer) → UniqueRows rows → UniqueRows (keep g rows)
UniqueRows-keep g rows u room user =
    omega (arith, tally-keep (at_key room user) g rows, u room user)

pub UniqueRows-add_score :
    (points : ℕ) (room user : Uuid) (rows : List RoomPlayer)
    → UniqueRows rows
    → UniqueRows (add_score points room user rows)
unfolding add_score
UniqueRows-add_score points room user rows = UniqueRows-map _ rows (λ r u p. ground arith)

pub UniqueRows-place_players :
    (room : Uuid) (rows : List RoomPlayer) → UniqueRows rows → UniqueRows (place_players room rows)
unfolding place_players
UniqueRows-place_players room rows = UniqueRows-map _ rows (λ r u p. ground arith)

-- A query that leaves no two rows of one key if there were none.
pub record KeepsRows {A : Type 0} (q : Query A) : Type 0 where
  pub keeps_rows : (db : Db) → UniqueRows db.room_players → UniqueRows (q db).1.room_players

statement-KeepsRows_at :
    {A : Type 0} (q : Query A) (db : Db) (faults : List Transport)
    → ((db : Db) → UniqueRows db.room_players → UniqueRows (q db).1.room_players)
    → UniqueRows db.room_players
    → db.faults ≡ faults
    → UniqueRows (statement q db).1.room_players
statement-KeepsRows_at q db [] keeps u e = rw e (keeps (record db { faults = [] }) u)
statement-KeepsRows_at q db (breaks ∷ faults) keeps u e = rw e u
statement-KeepsRows_at q db (holds ∷ faults) keeps u e =
    rw e (keeps (record db { faults = faults }) u)
statement-KeepsRows_at q db (loses ∷ faults) keeps u e =
    rw e (keeps (record db { faults = faults }) u)

statement-KeepsRows :
    {A : Type 0} (q : Query A)
    → ((db : Db) → UniqueRows db.room_players → UniqueRows (q db).1.room_players)
    → KeepsRows (statement q)
statement-KeepsRows q keeps = record {
  keeps_rows = λ db u. statement-KeepsRows_at q db db.faults keeps u refl;
}

pub create_room_player-KeepsRows :
    (room user : Uuid) (name : Text) (score : ℕ) (place : Option ℕ) (state : RoomPlayerState)
    → KeepsRows (create_room_player room user name score place state)
unfolding create_room_player
create_room_player-KeepsRows room user name score place state = statement-KeepsRows _ (λ db u r v.
    ground (
      arith,
      u r v,
      λ (new : any (at_key room user) db.room_players ≡ false).
          UniqueRows-cons
            (record {
              room_id = room;
              user_id = user;
              username = name;
              score = score;
              place = place;
              state = state;
              disconnected_at = none;
              joined_at = db.clock;
            })
            db.room_players new u r v,
    ))

pub delete_room_player-KeepsRows : (room user : Uuid) → KeepsRows (delete_room_player room user)
unfolding delete_room_player
delete_room_player-KeepsRows room user =
    statement-KeepsRows _ (λ db. UniqueRows-keep _ db.room_players)

pub add_room_player_score-KeepsRows :
    (points : ℕ) (room user : Uuid) → KeepsRows (add_room_player_score points room user)
unfolding add_room_player_score
add_room_player_score-KeepsRows points room user =
    statement-KeepsRows _ (λ db u r v.
      ground (arith, u r v, UniqueRows-add_score points room user db.room_players u r v))

pub calculate_room_leaderboard-KeepsRows :
    (room : Uuid) → KeepsRows (calculate_room_leaderboard room)
unfolding calculate_room_leaderboard
calculate_room_leaderboard-KeepsRows room =
    statement-KeepsRows _ (λ db. UniqueRows-place_players room db.room_players)

-- A query that leaves the table alone.
pub KeepsRows-same :
    {A : Type 0} (q : Query A) → ((db : Db) → (q db).1.room_players ≡ db.room_players) → KeepsRows q
KeepsRows-same q same = record {
  keeps_rows =
      λ db u room user. omega (arith, ap (tally (at_key room user)) (same db), u room user);
}
