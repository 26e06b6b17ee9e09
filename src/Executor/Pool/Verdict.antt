-- ===== src/Executor/Pool/Verdict.antt =====
-- The verdict on a job, against a description of what it means to pass.
use rogue_learn_code_battle.Base.{
  ℕ, ◌+◌, ◌≡◌, ◌↔◌, ◌⊎◌, refl, true, false, none, List, [], ◌∷◌, arith, Text, text_eq_iff,
  trim_space, is_empty,
}
use rogue_learn_code_battle.Store.Models.{TestCase}
use rogue_learn_code_battle.Executor.Containers.{Docker}
use rogue_learn_code_battle.Executor.Pool.Defs.{
  Job, compile_command, run_command, copy_code, run_tests, judge, compile_and_test,
}

module _ (docker : Docker) where
  open docker use {World, exec}

  -- Every test case runs without an error and prints what is expected, up to white space at the
  -- ends. The world goes on from one run to the next.
  abbrev pub Passes : Text → Text → List TestCase → World → Type 0
  Passes id command [] w = Unit
  Passes id command (tc ∷ tcs) w =
      ((exec id command tc.input w).0.failed ≡ false)
      × (trim_space (exec id command tc.input w).0.stdout ≡ trim_space tc.expected_output)
      × Passes id command tcs (exec id command tc.input w).1

  -- The job is set up and, where its language is compiled, compiles; then all test cases pass.
  abbrev pub IsAccepted : Text → Job → World → Type 0
  IsAccepted id job w =
      let (copied, w₁) = copy_code docker id job w in
      let (r, w₂) = exec id (compile_command job.language) [] w₁ in
      (copied ≡ true)
      × (((is_empty job.language.compile_cmd ≡ true)
            × Passes id (run_command job.language) job.test_cases w₁)
          ⊎ ((is_empty job.language.compile_cmd ≡ false)
              × (r.failed ≡ false)
              × Passes id (run_command job.language) job.test_cases w₂))

  run_tests-success :
      (id command : Text) (total : ℕ) (tcs : List TestCase) (w : World)
      → ((run_tests docker id command total tcs w).0.success ≡ true) ↔ Passes id command tcs w
  unfolding run_tests
  run_tests-success id command total [] w = (λ h. tt, λ h. refl)
  run_tests-success id command total (tc ∷ tcs) w = ground (
    arith,
    text_eq_iff (trim_space (exec id command tc.input w).0.stdout) (trim_space tc.expected_output),
    run_tests-success id command (total + (exec id command tc.input w).0.duration_ms) tcs
        (exec id command tc.input w).1,
  )

  -- The result of a job reports success exactly when the job is set up, compiles if it has a
  -- compile command, and passes every test case.
  pub judge-success :
      (id : Text) (job : Job) (w : World)
      → ((judge docker id job w).0.success ≡ true) ↔ IsAccepted id job w
  unfolding judge compile_and_test
  judge-success id job w =
      let w₁ = (copy_code docker id job w).1 in
      let w₂ = (exec id (compile_command job.language) [] w₁).1 in
      ground (
        arith,
        run_tests-success id (run_command job.language) 0 job.test_cases w₁,
        run_tests-success id (run_command job.language) 0 job.test_cases w₂,
      )

  run_tests-error :
      (id command : Text) (total : ℕ) (tcs : List TestCase) (w : World)
      → ((run_tests docker id command total tcs w).0.success ≡ true)
        ↔ ((run_tests docker id command total tcs w).0.error ≡ none)
  unfolding run_tests
  run_tests-error id command total [] w = (λ h. refl, λ h. refl)
  run_tests-error id command total (tc ∷ tcs) w = ground (
    arith,
    run_tests-error id command (total + (exec id command tc.input w).0.duration_ms) tcs
        (exec id command tc.input w).1,
  )

  -- A result that a container produced carries an error exactly when it reports no success.
  judge-error :
      (id : Text) (job : Job) (w : World)
      → ((judge docker id job w).0.success ≡ true) ↔ ((judge docker id job w).0.error ≡ none)
  unfolding judge compile_and_test
  judge-error id job w =
      let w₁ = (copy_code docker id job w).1 in
      let w₂ = (exec id (compile_command job.language) [] w₁).1 in
      ground (
        arith,
        run_tests-error id (run_command job.language) 0 job.test_cases w₁,
        run_tests-error id (run_command job.language) 0 job.test_cases w₂,
      )
