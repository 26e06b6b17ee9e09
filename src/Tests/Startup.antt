-- ===== src/Tests/Startup.antt =====
-- The theorems on the start of the program and on the gRPC service at concrete inputs.
use rogue_learn_code_battle.Base.{
  ℕ, ◌≡◌, ◌↔◌, ◌⊎◌, refl, inl, inr, true, Option, none, some, [], ◌∷◌, Text, codes, text_eq, arith,
}
use rogue_learn_code_battle.Store.Models.{Uuid}
use rogue_learn_code_battle.Executor.Containers.{Manager}
use rogue_learn_code_battle.Executor.Pool.Workers.{submit, turn, reorder, after, new_pool}
use rogue_learn_code_battle.Executor.Pool.Workers.Served.{IsServed}
use rogue_learn_code_battle.Service.{
  SubmitCodeSolutionRequest, submit_code_solution, submit_code_solution-silent, SubmitEnds,
}
use rogue_learn_code_battle.Startup.{boot, booted, run_main, returned_from_main, server_closed}
use rogue_learn_code_battle.Startup.Serving.{boot-IsServed}
use rogue_learn_code_battle.Startup.Ends.{MainReturns, run_main-returned}
use rogue_learn_code_battle.Tests.Executor.{sum_job}
use rogue_learn_code_battle.Tests.Hub.{small_db}
use rogue_learn_code_battle.Tests.Workers.{
  numbering, IsBelow, numbering-Starts, first_listed, first-IsListed,
}

abbrev all_set : Text → Option Text
all_set key = some (codes "secret")

boot-IsServed_example :
    (d : Manager ℕ) × (boot numbering all_set (λ text. true) (some 1) true true
      ≡ some (booted d (new_pool numbering d.containers)))
    × IsServed 5 (
        after numbering 5 3 d.containers
          (turn 0 1 ∷ reorder 0 ∷ submit sum_job ∷ submit sum_job ∷ []))
unfolding text_eq
boot-IsServed_example =
    boot-IsServed numbering IsBelow numbering-Starts all_set (λ text. true) (codes "secret")
      (codes "secret") 1 (first_listed ∷ [])
      (turn 0 1 ∷ reorder 0 ∷ submit sum_job ∷ submit sum_job ∷ []) (refl, λ e. cc) (refl, λ e. cc)
      refl refl ((λ worker. first-IsListed), tt) (omega arith)

run_main-returned_example :
    (run_main numbering all_set (λ text. true) (some 1) true true server_closed (some none)
      ≡ some returned_from_main)
    ↔ MainReturns numbering all_set (λ text. true) (some 1) true true server_closed (some none)
run_main-returned_example =
    run_main-returned numbering all_set (λ text. true) (some 1) true true server_closed (some none)

abbrev grpc_request : SubmitCodeSolutionRequest
grpc_request = record {
  code_problem_id = codes "p";
  user_id = codes "u";
  language_id = codes "l";
  room_id = codes "r";
  code_submitted = codes "x";
}

-- A parser of uuids that takes the first byte of the text.
abbrev parse_first_byte : Text → Text ⊎ Uuid
parse_first_byte [] = inl (codes "invalid UUID length: 0")
parse_first_byte (b ∷ bs) = inr b

abbrev no_text : {A : Type 0} → A → Text
no_text a = []

submit_code_solution-silent_example :
    SubmitEnds parse_first_byte no_text no_text no_text
      (inr 112)
      (inr 117)
      (inr 108)
      (inr 114)
      (codes "x")
      small_db
      (submit_code_solution parse_first_byte no_text no_text no_text grpc_request small_db)
submit_code_solution-silent_example =
    submit_code_solution-silent parse_first_byte no_text no_text no_text grpc_request small_db
