-- ===== src/Sse/Rooms/Listed.antt =====
-- The listeners of a room whose channels belong to open connections.
use rogue_learn_code_battle.Base.{
  ℕ, suc, ◌≤◌, ◌≡◌, ◌≢◌, ◌∙◌, refl, sym, ap, true, false, Option, none, some, List, lookup, insert,
  delete, nat_eq, lookup-insert, lookup-delete, arith, ◌==◌, ==_iff, if◌then◌else◌, Bool-cases, inl,
  inr, ◌⊎◌,
}
use rogue_learn_code_battle.Store.Models.{Uuid}
use rogue_learn_code_battle.Sse.Rooms.{Phase, announcing, serving, Connection}

-- The connection has not begun to end.
abbrev pub IsOpen : Phase → Type 0
IsOpen p = (p ≡ announcing) ⊎ (p ≡ serving)

abbrev pub ByChannel : Type 0
ByChannel = List (ℕ × Connection)

pub record OpenFor (by : ByChannel) (player : Uuid) (channel : ℕ) : Type 0 where
  pub connection : Connection
  pub here : lookup channel by ≡ some connection
  pub same_player : connection.player ≡ player
  pub is_open : IsOpen connection.phase

abbrev pub Listed : List (Uuid × ℕ) → ByChannel → Type 0
Listed listeners by =
    (player : Uuid) (channel : ℕ)
    → lookup player listeners ≡ some channel
    → OpenFor by player channel

abbrev pub Fresh : ℕ → ByChannel → Type 0
Fresh next by = (channel : ℕ) → next ≤ channel → lookup channel by ≡ none

some_eq : {A : Type 0} {a b : A} {o : Option A} → o ≡ some a → o ≡ some b → a ≡ b
some_eq p q = cc

pub none-some : {A : Type 0} {a : A} → none ≡ some a → ⊥
none-some e = cc

beyond :
    {A : Type 0} (next channel : ℕ) (a : A) {o : Option A}
    → suc next ≤ channel
    → o ≡ none
    → (if next == channel then some a else o) ≡ none
beyond next channel a le absent = ground arith

-- Another channel's connection changes.
OpenFor-elsewhere :
    (by : ByChannel) (channel : ℕ) (c : Connection) (player : Uuid) (channel' : ℕ)
    → (channel == channel') ≡ false
    → OpenFor by player channel'
    → OpenFor (insert channel c by) player channel'
OpenFor-elsewhere by channel c player channel' other o = record {
  connection = o.connection;
  here = lookup-insert channel channel' c by ∙ rw other o.here;
  same_player = o.same_player;
  is_open = o.is_open;
}

-- The listener's own connection changes and stays open.
OpenFor-here :
    (by : ByChannel) (channel : ℕ) (c : Connection) (player : Uuid) (channel' : ℕ)
    → (channel == channel') ≡ true
    → c.player ≡ player
    → IsOpen c.phase
    → OpenFor (insert channel c by) player channel'
OpenFor-here by channel c player channel' same of_player is = record {
  connection = c;
  here = lookup-insert channel channel' c by ∙ rw same refl;
  same_player = of_player;
  is_open = is;
}

pub Fresh-set :
    (by : ByChannel) (next channel : ℕ) (c c' : Connection)
    → lookup channel by ≡ some c
    → Fresh next by
    → Fresh next (insert channel c' by)
Fresh-set by next channel c c' here fresh channel' le = elim (Bool-cases (channel == channel')) [
  | inl same ↦
      absurd
        (none-some (sym (fresh channel (rw (sym ((==_iff channel channel').0 same)) at le)) ∙ here))
  | inr other ↦ lookup-insert channel channel' c' by ∙ rw other (fresh channel' le)
]

pub Fresh-register :
    (by : ByChannel) (next : ℕ) (c : Connection)
    → Fresh next by
    → Fresh (suc next) (insert next c by)
Fresh-register by next c fresh channel le =
    lookup-insert next channel c by ∙ beyond next channel c le (fresh channel (omega (arith, le)))

-- A connection changes, and the listeners: a listener that is left on its channel is its player's,
-- and the connection is then open; the listeners on other channels were there.
pub Listed-set :
    (listeners listeners' : List (Uuid × ℕ)) (by : ByChannel) (channel : ℕ) (c : Connection)
    → ((player : Uuid) (channel' : ℕ)
        → lookup player listeners' ≡ some channel'
        → ((channel == channel') ≡ true → (c.player ≡ player) × IsOpen c.phase)
          × ((channel == channel') ≡ false → lookup player listeners ≡ some channel'))
    → Listed listeners by
    → Listed listeners' (insert channel c by)
Listed-set listeners listeners' by channel c kept listed player channel' h =
    let (own, others) = kept player channel' h in
    elim (Bool-cases (channel == channel')) [
      | inl same ↦
          let (of_player, is) = own same in
          OpenFor-here by channel c player channel' same of_player is
      | inr other ↦
          OpenFor-elsewhere by channel c player channel' other
            (listed player channel' (others other))
    ]

-- A listener's channel is a connection's.
pub Listed-same :
    (listeners : List (Uuid × ℕ)) (by : ByChannel) (player : Uuid) (channel channel' : ℕ)
    (c : Connection)
    → Listed listeners by
    → lookup channel by ≡ some c
    → lookup player listeners ≡ some channel'
    → (channel == channel') ≡ true
    → (c.player ≡ player) × IsOpen c.phase
Listed-same listeners by player channel channel' c listed here h same =
    let o = listed player channel' h in
    let eq : o.connection ≡ c =
      some_eq o.here (ap (λ k. lookup k by) (sym ((==_iff channel channel').0 same)) ∙ here) in
    (ap (λ (c : Connection). c.player) (sym eq) ∙ o.same_player, rw eq at o.is_open)

Listed-Fresh :
    (listeners : List (Uuid × ℕ)) (by : ByChannel) (next : ℕ) (player : Uuid) (channel : ℕ)
    → Listed listeners by
    → Fresh next by
    → lookup player listeners ≡ some channel
    → (next == channel) ≡ false
Listed-Fresh listeners by next player channel listed fresh h = elim (Bool-cases (next == channel)) [
  | inl same ↦ absurd (
      none-some (
        sym (fresh channel (omega (arith, (==_iff next channel).0 same)))
        ∙ (listed player channel h).here))
  | inr other ↦ other
]

registered :
    (listeners : List (Uuid × ℕ)) (player next player' : Uuid) (channel : ℕ)
    → lookup player' (insert player next listeners) ≡ some channel
    → ((player ≡ player') × (next ≡ channel)) ⊎ (lookup player' listeners ≡ some channel)
registered listeners player next player' channel h =
    ground (arith, lookup-insert player player' next listeners, ==_iff player player')

pub left_over :
    (listeners : List (Uuid × ℕ)) (player player' : Uuid) (channel : ℕ)
    → lookup player' (delete player listeners) ≡ some channel
    → (player ≢ player') × (lookup player' listeners ≡ some channel)
left_over listeners player player' channel h =
    ground (arith, lookup-delete player player' listeners, ==_iff player player')

abbrev pub opening : Uuid → Connection
opening player = record { player = player; phase = announcing }

pub Listed-register :
    (listeners : List (Uuid × ℕ)) (by : ByChannel) (next : ℕ) (player : Uuid)
    → Listed listeners by
    → Fresh next by
    → Listed (insert player next listeners) (insert next (opening player) by)
Listed-register listeners by next player listed fresh player' channel h =
    elim (registered listeners player next player' channel h) [
      | inl (of_player, same) ↦
          OpenFor-here by next (opening player) player' channel ((==_iff next channel).1 same)
            of_player (inl refl)
      | inr there ↦
          OpenFor-elsewhere by next (opening player) player' channel
            (Listed-Fresh listeners by next player' channel listed fresh there)
            (listed player' channel there)
    ]
