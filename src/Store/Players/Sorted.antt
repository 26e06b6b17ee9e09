-- ===== src/Store/Players/Sorted.antt =====
-- GetRoomPlayers: the rows of a room in the order of the scores.
use rogue_learn_code_battle.Base.{
  ℕ, ◌≤◌, ◌≡◌, refl, inl, inr, Bool, true, false, List, [], ◌∷◌, map, arith, All, tally, Bool-cases,
}
use rogue_learn_code_battle.Store.Models.{RoomPlayer}
use rogue_learn_code_battle.Store.Players.{listed_before, insert_row, sort_rows}

-- No score is smaller than a later one.
abbrev pub IsDescending : List ℕ → Type 0
IsDescending [] = Unit
IsDescending (s ∷ ss) = All (λ t. t ≤ s) ss × IsDescending ss

abbrev pub score_list : List RoomPlayer → List ℕ
score_list = map (λ p. p.score)

tally-insert_row :
    (f : RoomPlayer → Bool) (p : RoomPlayer) (rows : List RoomPlayer)
    → tally f (insert_row p rows) ≡ tally f (p ∷ rows)
unfolding insert_row
tally-insert_row f p [] = refl
tally-insert_row f p (q ∷ rows) = elim (Bool-cases (listed_before p q)) [
  | inl first ↦ rw first refl
  | inr later ↦ rw later (ground (arith, tally-insert_row f p rows))
]

pub tally-sort_rows :
    (f : RoomPlayer → Bool) (rows : List RoomPlayer) → tally f (sort_rows rows) ≡ tally f rows
unfolding sort_rows
tally-sort_rows f [] = refl
tally-sort_rows f (p ∷ rows) =
    ground (arith, tally-insert_row f p (sort_rows rows), tally-sort_rows f rows)

All-le_trans : (s t : ℕ) (ss : List ℕ) → s ≤ t → All (λ u. u ≤ s) ss → All (λ u. u ≤ t) ss
All-le_trans s t [] h a = tt
All-le_trans s t (u ∷ ss) h a = (omega (arith, h, a.0), All-le_trans s t ss h a.1)

before-le : (p q : RoomPlayer) → listed_before p q ≡ true → q.score ≤ p.score
before-le p q h = ground arith

behind-le : (p q : RoomPlayer) → listed_before p q ≡ false → p.score ≤ q.score
behind-le p q h = ground arith

All-insert_row :
    (s : ℕ) (p : RoomPlayer) (rows : List RoomPlayer)
    → p.score ≤ s
    → All (λ t. t ≤ s) (score_list rows)
    → All (λ t. t ≤ s) (score_list (insert_row p rows))
unfolding insert_row
All-insert_row s p [] h a = (h, tt)
All-insert_row s p (q ∷ rows) h a = elim (Bool-cases (listed_before p q)) [
  | inl first ↦ rw first (h, (a.0, a.1))
  | inr later ↦ rw later (a.0, All-insert_row s p rows h a.1)
]

insert_row-IsDescending :
    (p : RoomPlayer) (rows : List RoomPlayer)
    → IsDescending (score_list rows)
    → IsDescending (score_list (insert_row p rows))
unfolding insert_row
insert_row-IsDescending p [] d = (tt, tt)
insert_row-IsDescending p (q ∷ rows) d = elim (Bool-cases (listed_before p q)) [
  | inl first ↦
      let le = before-le p q first in
      rw first ((le, All-le_trans q.score p.score (score_list rows) le d.0), d)
  | inr later ↦
      rw later (
        All-insert_row q.score p rows (behind-le p q later) d.0,
        insert_row-IsDescending p rows d.1,
      )
]

pub sort_rows-IsDescending : (rows : List RoomPlayer) → IsDescending (score_list (sort_rows rows))
unfolding sort_rows
sort_rows-IsDescending [] = tt
sort_rows-IsDescending (p ∷ rows) =
    insert_row-IsDescending p (sort_rows rows) (sort_rows-IsDescending rows)
