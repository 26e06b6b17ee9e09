-- ===== src/Sse/Rooms/Rejoin.antt =====
-- A player who joins a room twice.
use rogue_learn_code_battle.Base.{
  ℕ, ◌≡◌, ◌∙◌, refl, sym, false, none, some, List, lookup, insert, nat_eq, lookup-insert,
  lookup-delete, arith, ◌==◌, ==_iff, ==_refl, Bool-cases, inl, inr,
}
use rogue_learn_code_battle.Store.Models.{Uuid}
use rogue_learn_code_battle.Sse.Rooms.{
  announcing, serving, Connection, Connections, register, unregister, joins, disconnects, Reach,
  later,
}
use rogue_learn_code_battle.Sse.Rooms.Listed.{Fresh, none-some}
use rogue_learn_code_battle.Sse.Rooms.Live.{Reach-Inv}

==_flip : (a b : ℕ) → (a == b) ≡ false → (b == a) ≡ false
==_flip a b h = ground arith

other_channel :
    (by : List (ℕ × Connection)) (next channel : ℕ) (c : Connection)
    → Fresh next by
    → lookup channel by ≡ some c
    → (next == channel) ≡ false
other_channel by next channel c fresh here = elim (Bool-cases (next == channel)) [
  | inl same ↦
      absurd (none-some (sym (fresh channel (omega (arith, (==_iff next channel).0 same))) ∙ here))
  | inr other ↦ other
]

-- In every state that a new room reaches, a player who is connected joins a second time, and the
-- first connection ends: a state that the room reaches too, in which the player has no listener
-- while the second connection is open.
pub rejoin-deafens :
    {event room : Uuid} {s : Connections} (channel : ℕ) (c : Connection)
    → Reach event room s
    → lookup channel s.by_channel ≡ some c
    → c.phase ≡ serving
    → let t = unregister channel c (register c.player s) in
      Reach event room t
      × (lookup c.player t.room.listeners ≡ none)
      × (lookup s.next_channel t.by_channel
          ≡ some (record { player = c.player; phase = announcing }))
unfolding register unregister
rejoin-deafens {s = s} channel c r here phase =
    let opened : Connection = record { player = c.player; phase = announcing } in
    let by = insert s.next_channel opened s.by_channel in
    let other = other_channel s.by_channel s.next_channel channel c (Reach-Inv r).fresh here in
    (
      later (later r (joins c.player)) (
          disconnects channel c
            (lookup-insert s.next_channel channel opened s.by_channel ∙ rw other here) phase),
      lookup-delete c.player c.player _ ∙ rw (==_refl c.player) refl,
      lookup-insert channel s.next_channel _ by
          ∙ rw (==_flip s.next_channel channel other) (
              lookup-insert s.next_channel s.next_channel opened s.by_channel
              ∙ rw (==_refl s.next_channel) refl),
    )
