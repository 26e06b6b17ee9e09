-- ===== src/Hub/Ensures.antt =====
-- Postconditions of handlers: one for a return, one for an error, and whether blocking is allowed.
use rogue_learn_code_battle.Base.{◌≡◌, ◌≢◌, refl, nat_eq}
use rogue_learn_code_battle.Store.Db.{Db, Query, QueryResult, ok, no_rows, query_error}
use rogue_learn_code_battle.Hub.Exec.{
  Hub, HubError, Outcome, done, failed, blocked, Handler, continue, or_fail, run,
}

pub data Ensures {W A : Type 0} (Q : A → Hub W → Type 0) (E : Hub W → Type 0) (B : Type 0)
    : Outcome W A → Type 0 where
  returned : {a : A} {h : Hub W} → Q a h → Ensures Q E B (done a h)
  errored : {e : HubError} {h : Hub W} → E h → Ensures Q E B (failed e h)
  hung : B → Ensures Q E B blocked

module _ {W A C : Type 0} {R : A → Hub W → Type 0} {Q : C → Hub W → Type 0} {E : Hub W → Type 0}
    {B : Type 0} where
  pub Ensures-bind :
      {r : Outcome W A} (f : A → Handler W C)
      → Ensures R E B r
      → ((a : A) (h : Hub W) → R a h → Ensures Q E B (f a h))
      → Ensures Q E B (continue r f)
  Ensures-bind f (returned {a = a} {h = h} q) k = k a h q
  Ensures-bind f (errored e) k = errored e
  Ensures-bind f (hung b) k = hung b

module _ {W A : Type 0} {Q R : A → Hub W → Type 0} {E F : Hub W → Type 0} {B : Type 0} where
  pub Ensures-weaken :
      {r : Outcome W A}
      → Ensures Q E B r
      → ((a : A) (h : Hub W) → Q a h → R a h)
      → ((h : Hub W) → E h → F h)
      → Ensures R F B r
  Ensures-weaken (returned {a = a} {h = h} q) f g = returned (f a h q)
  Ensures-weaken (errored {h = h} e) f g = errored (g h e)
  Ensures-weaken (hung b) f g = hung b

-- All but the database is as it was.
pub record OnlyDb {W : Type 0} (h h' : Hub W) : Type 0 where
  pub same_room : h'.room ≡ h.room
  pub same_sent : h'.sent ≡ h.sent
  pub same_guilds : h'.guild_updates ≡ h.guild_updates

module _ {W A : Type 0} (P : Db → Type 0) {B : Type 0} where
  or_fail-Ensures :
      (r : QueryResult A) (h : Hub W) {db : Db}
      → P db
      → Ensures
          (λ a h'. OnlyDb h h' × P h'.db × (r ≡ ok a))
          (λ h'. OnlyDb h h' × P h'.db × ((a : A) → r ≢ ok a))
          B
          (or_fail r (record h { db = db }))
  or_fail-Ensures (ok a) h p =
      returned (record { same_room = refl; same_sent = refl; same_guilds = refl }, p, refl)
  or_fail-Ensures no_rows h p =
      errored (record { same_room = refl; same_sent = refl; same_guilds = refl }, p, λ a e. cc)
  or_fail-Ensures query_error h p =
      errored (record { same_room = refl; same_sent = refl; same_guilds = refl }, p, λ a e. cc)

  -- A query leaves the database in a state that satisfies `P`, and the rest alone.
  pub run-Ensures :
      (q : Query A) (h : Hub W)
      → P (q h.db).1
      → Ensures
          (λ a h'. OnlyDb h h' × P h'.db × ((q h.db).0 ≡ ok a))
          (λ h'. OnlyDb h h' × P h'.db × ((a : A) → (q h.db).0 ≢ ok a))
          B
          (run q h)
  run-Ensures q h p = or_fail-Ensures (q h.db).0 h p
