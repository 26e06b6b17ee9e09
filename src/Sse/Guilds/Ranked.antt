-- ===== src/Sse/Guilds/Ranked.antt =====
-- GetGuildLeaderboardByEvent: the entries of one event in the order of their rank.
use rogue_learn_code_battle.Base.{
  ◌≤◌, ◌≡◌, ◌∙◌, inl, inr, Bool, true, false, ◌&&◌, List, [], ◌∷◌, arith, All, All-insert_by, tally,
  tally-sort_by, tally-keep, insert_by, sort_by, keep, leb, ◌==◌, Bool-cases,
}
use rogue_learn_code_battle.Store.Models.{Uuid}
use rogue_learn_code_battle.Sse.Guilds.{GuildLeaderboardEntry, guild_leaderboard}

-- No entry has a lower rank than one in front of it.
abbrev pub IsRanked : List GuildLeaderboardEntry → Type 0
IsRanked [] = Unit
IsRanked (e ∷ es) = All (λ (x : GuildLeaderboardEntry). e.rank ≤ x.rank) es × IsRanked es

abbrev by_rank : GuildLeaderboardEntry → GuildLeaderboardEntry → Bool
by_rank a b = leb a.rank b.rank

behind-All :
    (x y : GuildLeaderboardEntry) (es : List GuildLeaderboardEntry)
    → x.rank ≤ y.rank
    → All (λ (e : GuildLeaderboardEntry). y.rank ≤ e.rank) es
    → All (λ (e : GuildLeaderboardEntry). x.rank ≤ e.rank) es
behind-All x y [] le all = tt
behind-All x y (e ∷ es) le all = (omega (arith, le, all.0), behind-All x y es le all.1)

rank-le : (x y : GuildLeaderboardEntry) → by_rank x y ≡ true → x.rank ≤ y.rank
rank-le x y h = ground arith

rank-ge : (x y : GuildLeaderboardEntry) → by_rank x y ≡ false → y.rank ≤ x.rank
rank-ge x y h = ground arith

insert_by-IsRanked :
    (x : GuildLeaderboardEntry) (es : List GuildLeaderboardEntry)
    → IsRanked es
    → IsRanked (insert_by by_rank x es)
unfolding insert_by
insert_by-IsRanked x [] r = (tt, tt)
insert_by-IsRanked x (y ∷ es) r = elim (Bool-cases (by_rank x y)) [
  | inl first ↦ let le = rank-le x y first in rw first ((le, behind-All x y es le r.0), r)
  | inr later ↦ rw later (
    All-insert_by (λ (e : GuildLeaderboardEntry). y.rank ≤ e.rank) by_rank x es (rank-ge x y later)
        r.0,
    insert_by-IsRanked x es r.1,
  )
]

sort_by-IsRanked : (es : List GuildLeaderboardEntry) → IsRanked (sort_by by_rank es)
unfolding sort_by
sort_by-IsRanked [] = tt
sort_by-IsRanked (e ∷ es) = insert_by-IsRanked e (sort_by by_rank es) (sort_by-IsRanked es)

pub guild_leaderboard-IsRanked :
    (event : Uuid) (es : List GuildLeaderboardEntry) → IsRanked (guild_leaderboard event es)
unfolding guild_leaderboard
guild_leaderboard-IsRanked event es = sort_by-IsRanked (keep (λ e. e.event_id == event) es)

pub tally-guild_leaderboard :
    (f : GuildLeaderboardEntry → Bool) (event : Uuid) (es : List GuildLeaderboardEntry)
    → tally f (guild_leaderboard event es) ≡ tally (λ e. e.event_id == event && f e) es
unfolding guild_leaderboard
tally-guild_leaderboard f event es =
    tally-sort_by f by_rank (keep (λ e. e.event_id == event) es)
    ∙ tally-keep f (λ e. e.event_id == event) es
