-- ===== src/Tests/Workers.antt =====
-- The theorems on the pool's workers at a concrete schedule.
use rogue_learn_code_battle.Base.{◌≡◌, refl, some, List, [], ◌∷◌, ◌++◌, codes, text_eq, arith}
use rogue_learn_code_battle.Executor.Containers.{Containers, idle, claim_idle}
use rogue_learn_code_battle.Executor.Pool.{Result, empty_result}
use rogue_learn_code_battle.Executor.Pool.Workers.{
  Ticket, PoolEvent, submit, turn, reorder, after, pool_step, submit_job, take_turn, move, returned,
}
use rogue_learn_code_battle.Executor.Pool.Workers.Exclusive.{IsPool, IsExclusive, after-IsExclusive}
use rogue_learn_code_battle.Executor.Pool.Workers.Tickets.{carried, IsTracked}
use rogue_learn_code_battle.Executor.Pool.Workers.Answers.{after-IsTracked}
use rogue_learn_code_battle.Executor.Pool.Workers.Progress.{three_turns-answer}
use rogue_learn_code_battle.Base.{ℕ, suc, ◌<◌, true, false, Text, ap}
use rogue_learn_code_battle.Executor.Containers.{Docker, Summary, running}
use rogue_learn_code_battle.Executor.Pool.Workers.Start.{Starts}
use rogue_learn_code_battle.Executor.Pool.Workers.Filled.{IsListed}
use rogue_learn_code_battle.Tests.Executor.{simple, sum_job}

abbrev two_idle : Containers
two_idle = (codes "a", idle) ∷ (codes "b", idle) ∷ []

two_idle-IsPool : IsPool two_idle
unfolding text_eq
two_idle-IsPool = record { unique = (refl, (refl, tt)); nameless = refl }

-- Three calls come to a channel for one job, and the first worker receives the first of them.
abbrev begun : List (PoolEvent simple)
begun = turn 0 0 ∷ submit sum_job ∷ submit sum_job ∷ []

-- Both workers take turns, and a fourth call comes.
abbrev later : List (PoolEvent simple)
later = turn 0 0 ∷ reorder 0 ∷ turn 1 0 ∷ turn 0 0 ∷ submit sum_job ∷ turn 1 0 ∷ turn 0 0 ∷ []

abbrev first_ticket : Ticket
first_ticket = record { number = 0; job = sum_job }

begun-carried : carried ((after simple 2 1 two_idle begun).phases 0) ≡ some first_ticket
unfolding after pool_step submit_job take_turn move
begun-carried = refl

after-IsExclusive_example : IsExclusive (after simple 2 1 two_idle (later ++ begun))
after-IsExclusive_example = after-IsExclusive simple 2 1 two_idle (later ++ begun) two_idle-IsPool

after-IsTracked_example : IsTracked simple 1 (after simple 2 1 two_idle (later ++ begun))
after-IsTracked_example = after-IsTracked simple 2 1 two_idle (later ++ begun)

three_turns-answer_example :
    (r : Result) × ((after simple 2 1 two_idle (later ++ begun)).callers 0 ≡ returned sum_job r)
three_turns-answer_example =
    three_turns-answer simple 2 1 two_idle begun later 0 first_ticket two_idle-IsPool (omega arith)
      (omega arith) begun-carried (omega arith)

-- The second call found the channel full.
second_answer :
    (after simple 2 1 two_idle (later ++ begun)).callers 1 ≡ returned sum_job empty_result
unfolding after pool_step submit_job take_turn move claim_idle text_eq
second_answer = refl

abbrev first_of : Text → ℕ
first_of [] = 0
first_of (b ∷ bs) = b

abbrev pub first_listed : Summary
first_listed = record { id = 0 ∷ []; image = codes "worker"; state = running }

-- A Docker whose state is the next id; it lists one container.
abbrev pub numbering : Docker
numbering = record {
  World = ℕ;
  container_list = λ w. some (first_listed ∷ []);
  container_create = λ config w. (some (w ∷ []), suc w);
  container_start = λ id w. (true, w);
  container_remove = λ id w. (true, w);
  copy_to_container = λ id dir name code w. (true, w);
  exec = λ id command input w.
      (record { stdout = codes "3\n"; stderr = []; failed = false; duration_ms = 7 }, w);
}

abbrev pub IsBelow : ℕ → Text → Type 0
IsBelow w id = (k : ℕ) × (k < w) × (id ≡ k ∷ [])

fresh_number : (w : ℕ) → IsBelow w (w ∷ []) → ⊥
fresh_number w (k, below, same) = omega (arith, below, ap (λ (id : Text). first_of id) same)

pub numbering-Starts : Starts numbering IsBelow
numbering-Starts = record {
  makes = λ config w. (
    w ∷ [],
    suc w,
    refl,
    λ e. cc,
    fresh_number w,
    (w, omega arith, refl),
    λ j known. (known.0, omega (arith, known.1), known.2),
  );
  starts = λ id w. (w, refl, λ j known. known);
}

pub first-IsListed : IsListed numbering IsBelow 1 first_listed
first-IsListed = record { runs = refl; named = λ e. cc; known = (0, omega arith, refl) }
