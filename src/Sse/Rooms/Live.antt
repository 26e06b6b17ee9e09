-- ===== src/Sse/Rooms/Live.antt =====
-- Every listener of a room belongs to a connection that is open.
use rogue_learn_code_battle.Base.{
  ℕ, ◌≤◌, ◌≡◌, refl, ap, some, [], ◌∷◌, length, length-append, lookup, delete, nat_eq, arith, inr,
}
use rogue_learn_code_battle.Store.Models.{Uuid}
use rogue_learn_code_battle.Events.{joined, departed}
use rogue_learn_code_battle.Hub.{events_capacity}
use rogue_learn_code_battle.Sse.Rooms.{
  Phase, serving, removed, closed, Connections, register, announce, unregister, close_listen, Step,
  joins, announces, disconnects, closes, sends_left, posts, takes, Reach, start, later,
}
use rogue_learn_code_battle.Sse.Rooms.Listed.{
  IsOpen, OpenFor, Listed, Fresh, Fresh-set, Fresh-register, Listed-set, Listed-same, left_over,
  opening, Listed-register,
}

pub record Inv (s : Connections) : Type 0 where
  pub listed : Listed s.room.listeners s.by_channel
  pub fresh : Fresh s.next_channel s.by_channel
  pub space : length s.room.events ≤ events_capacity

not_open : {p : Phase} → p ≡ removed → IsOpen p → ⊥
not_open e h = ground arith

-- Every step keeps the invariant.
Step-Inv : {s t : Connections} → Step s t → Inv s → Inv t
unfolding register announce unregister close_listen
Step-Inv {s} (joins player) inv = record {
  listed = Listed-register s.room.listeners s.by_channel s.next_channel player inv.listed inv.fresh;
  fresh = Fresh-register s.by_channel s.next_channel (opening player) inv.fresh;
  space = inv.space;
}
Step-Inv {s} (announces channel c here phase room) inv = record {
  listed =
      Listed-set s.room.listeners s.room.listeners s.by_channel channel
        (record c { phase = serving })
        (λ player channel' h. (
          λ same. (
            (Listed-same s.room.listeners s.by_channel player channel channel' c inv.listed here h
                same).0,
            inr refl,
          ),
          λ other. h,
        ))
        inv.listed;
  fresh =
      Fresh-set s.by_channel s.next_channel channel c (record c { phase = serving }) here inv.fresh;
  space = omega (
    arith,
    room,
    length-append s.room.events
        (joined (record { player_id = c.player; room_id = s.room.room_id }) ∷ []),
  );
}
Step-Inv {s} (disconnects channel c here phase) inv = record {
  listed =
      Listed-set s.room.listeners (delete c.player s.room.listeners) s.by_channel channel
        (record c { phase = removed })
        (λ player channel' h.
          let (ne, there) = left_over s.room.listeners c.player player channel' h in
          (
            λ same. absurd (
                ne
                  (Listed-same s.room.listeners s.by_channel player channel channel' c inv.listed
                    here there same).0),
            λ other. there,
          ))
        inv.listed;
  fresh =
      Fresh-set s.by_channel s.next_channel channel c (record c { phase = removed }) here inv.fresh;
  space = inv.space;
}
Step-Inv {s} (closes channel c here phase) inv = record {
  listed =
      Listed-set s.room.listeners s.room.listeners s.by_channel channel
        (record c { phase = closed })
        (λ player channel' h. (
          λ same. absurd (
              not_open phase
                (Listed-same s.room.listeners s.by_channel player channel channel' c inv.listed here
                  h same).1),
          λ other. h,
        ))
        inv.listed;
  fresh =
      Fresh-set s.by_channel s.next_channel channel c (record c { phase = closed }) here inv.fresh;
  space = inv.space;
}
Step-Inv {s} (sends_left left rest waits room) inv = record {
  listed = inv.listed;
  fresh = inv.fresh;
  space = omega (arith, room, length-append s.room.events (departed left ∷ []));
}
Step-Inv {s} (posts e room) inv = record {
  listed = inv.listed;
  fresh = inv.fresh;
  space = omega (arith, room, length-append s.room.events (e ∷ []));
}
Step-Inv {s} (takes e rest here) inv = record {
  listed = inv.listed;
  fresh = inv.fresh;
  space = omega (arith, ap length here, inv.space);
}

pub Reach-Inv : {event room : Uuid} {s : Connections} → Reach event room s → Inv s
Reach-Inv start = record { listed = λ p c h. cc; fresh = λ c le. refl; space = omega arith }
Reach-Inv (later r step) = Step-Inv step (Reach-Inv r)

-- In every state that a new room reaches, by any interleaving of the steps of its connections, of
-- the goroutines that announce a departure, of other senders and of its loop, the channel of a
-- listener is that of a connection of this player that has not begun to end, and the room's channel
-- holds at most ten events.
pub Reach-OpenFor :
    {event room : Uuid} {s : Connections} (player : Uuid) (channel : ℕ)
    → Reach event room s
    → lookup player s.room.listeners ≡ some channel
    → OpenFor s.by_channel player channel × (length s.room.events ≤ events_capacity)
Reach-OpenFor player channel r h = let inv = Reach-Inv r in (inv.listed player channel h, inv.space)
