-- ===== src/Executor/Pool/Defs.antt =====
-- The jobs, their results, and the functions of the worker pool.
use rogue_learn_code_battle.Base.{
  ℕ, ◌+◌, Bool, true, false, not, Option, none, some, List, [], ◌∷◌, ◌++◌, Text, codes, text_eq,
  trim_space, replace_all, decimal, ltb, if◌then◌else◌, is_empty,
}
use rogue_learn_code_battle.Store.Models.{Language, TestCase, text_or_empty}
use rogue_learn_code_battle.Executor.Containers.{
  Docker, ExecuteCommandResult, Manager, Op, ◌>>=◌, pure, idle, busy, get_available_container,
  set_container_state,
}

abbrev pub temp_file_dir_holder : Text
temp_file_dir_holder = codes "{{temp_file_dir}}"

abbrev pub temp_file_name_holder : Text
temp_file_name_holder = codes "{{temp_file_name}}"

-- The errors that a Result carries: the three variables, or the error of copying the code.
pub data CodeErr : Type 0 where
  compile_error run_time_error fail_test_case copy_error : CodeErr

-- Result
pub record Result : Type 0 where
  pub stdout : Text
  pub stderr : Text
  pub message : Text
  pub success : Bool
  pub error : Option CodeErr
  pub execution_time : Text

-- Job, without its channel.
pub record Job : Type 0 where
  pub language : Language
  pub code : Text
  pub test_cases : List TestCase

-- Result{}
abbrev pub empty_result : Result
empty_result = record {
  stdout = [];
  stderr = [];
  message = [];
  success = false;
  error = none;
  execution_time = [];
}

-- The result of a run that a command ended.
abbrev pub failure : CodeErr → Text → ExecuteCommandResult → Result
failure err message r = record {
  stdout = r.stdout;
  stderr = r.stderr;
  message = message;
  success = false;
  error = some err;
  execution_time = [];
}

abbrev pub all_passed : ℕ → Result
all_passed total = record {
  stdout = [];
  stderr = [];
  message = codes "All test cases passed!";
  success = true;
  error = none;
  execution_time = decimal total ++ codes "ms";
}

abbrev pub setup_failed : Result
setup_failed = record {
  stdout = [];
  stderr = [];
  message = codes "Failed to set up execution environment.";
  success = false;
  error = some copy_error;
  execution_time = [];
}

abbrev pub wrong_answer_message : TestCase → Text → Text → Text
wrong_answer_message tc expected actual =
    codes "Wrong Answer on test case.\nInput:\n"
    ++ (tc.input
        ++ (codes "\n\nExpected Output:\n" ++ (expected ++ (codes "\n\nYour Output:\n" ++ actual))))

-- The commands of a language, with its directory and file name put in.
unfoldable pub compile_command : Language → Text
compile_command lang =
    replace_all lang.compile_cmd temp_file_dir_holder (text_or_empty lang.temp_file_dir)

unfoldable pub run_command : Language → Text
run_command lang =
    replace_all (replace_all lang.run_cmd temp_file_dir_holder (text_or_empty lang.temp_file_dir))
      temp_file_name_holder (text_or_empty lang.temp_file_name)

-- generateRunCmd's quoting: each ' becomes '\''.
unfoldable pub quote_code : Text → Text
quote_code code = replace_all code (codes "'") (codes "'\\''")

-- The queue of the pool: the jobs that wait in the channel, its capacity, and the workers that
-- wait to receive.
pub record Queue : Type 0 where
  pub waiting_jobs : ℕ
  pub max_job_count : ℕ
  pub waiting_workers : ℕ

abbrev pub has_room : Queue → Bool
has_room q = if ltb 0 q.waiting_workers then true else ltb q.waiting_jobs q.max_job_count

module _ (docker : Docker) where
  open docker use {World, copy_to_container, exec}

  -- The loop over the test cases in executeJob.
  unfoldable pub run_tests : Text → Text → ℕ → List TestCase → World → Result × World
  run_tests id command total [] w = (all_passed total, w)
  run_tests id command total (tc ∷ tcs) w =
      let (r, w') = exec id command tc.input w in
      let actual = trim_space r.stdout in
      let expected = trim_space tc.expected_output in
      let rest = run_tests id command (total + r.duration_ms) tcs w' in
      if r.failed
      then (failure run_time_error (codes "Runtime error") r, w')
      else if text_eq actual expected
      then rest
      else (failure fail_test_case (wrong_answer_message tc expected actual) r, w')

  -- The compilation of executeJob, for a language that has a compile command, and the tests.
  unfoldable pub compile_and_test : Text → Job → World → Result × World
  compile_and_test id job w =
      let (r, w') = exec id (compile_command job.language) [] w in
      if r.failed
      then (failure compile_error (codes "Compiled failed") r, w')
      else run_tests id (run_command job.language) 0 job.test_cases w'

  -- The call of copyCodeToContainer, which sends the code as the language's file.
  unfoldable pub copy_code : Text → Job → World → Bool × World
  copy_code id job w =
      copy_to_container id (text_or_empty job.language.temp_file_dir)
        (text_or_empty job.language.temp_file_name) job.code w

  -- The steps of executeJob inside the container: copy, compile if the language is compiled, test.
  unfoldable pub judge : Text → Job → World → Result × World
  judge id job w =
      let (copied, w') = copy_code id job w in
      if not copied
      then (setup_failed, w')
      else if is_empty job.language.compile_cmd
      then run_tests id (run_command job.language) 0 job.test_cases w'
      else compile_and_test id job w'

  -- What other goroutines do to the manager while this one waits: between the tries for a
  -- container, and while the container runs the job.
  pub record Others : Type 0 where
    pub meanwhile : ℕ → Manager World → Manager World
    pub during : Manager World → Manager World

  run_judge : Others → Text → Job → Op World Result
  run_judge others id job d =
      let (result, w) = judge id job d.world in
      some (result, others.during (record d { world = w }))

  -- executeJob: the result that is sent on the job's channel, if any. The deferred call makes the
  -- container idle again.
  unfoldable pub execute_job : Others → Job → Op World (Option Result)
  unfolding run_judge
  execute_job others job = do
    id ← get_available_container docker others.meanwhile
    err ← set_container_state docker id busy
    elim err [
      | some e ↦ pure none
      | none ↦ do
        result ← run_judge others id job
        _ ← set_container_state docker id idle
        pure (some result)
    ]

  -- The receive `<-result` behind a job that a worker took: with nothing sent it never returns.
  abbrev pub await : Option (Option Result × Manager World) → Option (Result × Manager World)
  await none = none
  await (some (none, d)) = none
  await (some (some result, d)) = some (result, d)

  -- ExecuteJob; `none` never returns.
  unfoldable pub run_job : Queue → Others → Job → Op World Result
  run_job q others job d =
      if has_room q then await (execute_job others job d) else some (empty_result, d)
