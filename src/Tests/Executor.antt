-- ===== src/Tests/Executor.antt =====
-- The executor's theorems at concrete inputs.
use rogue_learn_code_battle.Base.{
  ℕ, ◌+◌, ◌≤◌, ◌≡◌, ◌≢◌, ◌↔◌, refl, Bool, true, false, Option, none, some, List, [], ◌∷◌, String,
  Text, codes, text_eq, text_key, lookup, length, arith, All, trim_space, to_lower, replace_all,
  UniqueKeys,
}
use rogue_learn_code_battle.Store.Models.{Language}
use rogue_learn_code_battle.Executor.Languages.{normalize_language}
use rogue_learn_code_battle.Executor.Sanitize.{
  SanitizationError, sanitize, check_categories, has_matching_pattern, language_categories,
}
use rogue_learn_code_battle.Executor.Sanitize.Patterns.{dangerous_patterns}
use rogue_learn_code_battle.Executor.Sanitize.Verdict.{sanitize-accepts, IsClear}
use rogue_learn_code_battle.Executor.Packages.{GoFile, selector_on_ident}
use rogue_learn_code_battle.Executor.Builder.{CodeBuilder, default_max_code_length}
use rogue_learn_code_battle.Executor.Containers.{
  Docker, Manager, Containers, idle, busy, running, Summary, get_available_container,
  get_available_from, claim_idle, check_health, balance_worker,
}
use rogue_learn_code_battle.Executor.Containers.Returns.{Returns}
use rogue_learn_code_battle.Executor.Containers.Claim.{IsExhausted, idle_count}
use rogue_learn_code_battle.Executor.Containers.Balance.{balance_worker-bounded}
use rogue_learn_code_battle.Executor.Containers.Health.{IsWedged, check_health-IsWedged}
use rogue_learn_code_battle.Executor.Pool.{
  Result, Job, Others, run_job, judge, copy_code, run_tests, run_command, empty_result, has_room,
}
use rogue_learn_code_battle.Executor.Pool
use rogue_learn_code_battle.Executor.Pool.Verdict.{IsAccepted, judge-success}
use rogue_learn_code_battle.Executor.Pool.Reply.{run_job-replies, run_job-hangs}

-- A client whose calls all succeed and whose programs print 3; its state counts the calls.
abbrev pub simple : Docker
simple = record {
  World = ℕ;
  container_list =
      λ w. some (record { id = codes "a"; image = codes "worker"; state = running } ∷ []);
  container_create = λ config w. (some (codes "new"), w + 1);
  container_start = λ id w. (true, w + 1);
  container_remove = λ id w. (true, w + 1);
  copy_to_container = λ id dir name code w. (true, w + 1);
  exec = λ id command input w.
      (record { stdout = codes "3\n"; stderr = []; failed = false; duration_ms = 7 }, w + 1);
}

abbrev pub manager_of : Containers → Manager ℕ
manager_of containers = record {
  locked = false;
  containers = containers;
  max_workers = 1;
  memory_limit_bytes = 64;
  cpu_nano_limit = 100;
  world = 0;
}

-- One container that is busy and one that is idle.
abbrev pub two : Containers
two = (codes "a", busy) ∷ (codes "b", idle) ∷ []

abbrev pub quiet : Others simple
quiet = record { meanwhile = λ n d. d; during = λ d. d }

abbrev pub python : Language
python = record {
  id = 1;
  name = codes "Python";
  compile_cmd = [];
  run_cmd = codes "python main.py";
  temp_file_dir = some (codes "/tmp");
  temp_file_name = some (codes "main.py");
}

abbrev pub sum_job : Job
sum_job = record {
  language = python;
  code = codes "print(1 + 2)";
  test_cases =
      record {
        id = 1;
        code_problem_id = 1;
        input = codes "1 2";
        expected_output = codes " 3";
        is_hidden = false;
      }
      ∷ [];
}

abbrev pub free_queue : Pool.Queue
free_queue = record { waiting_jobs = 0; max_job_count = 2; waiting_workers = 0 }

abbrev pub full_queue : Pool.Queue
full_queue = record { waiting_jobs = 2; max_job_count = 2; waiting_workers = 0 }

two-UniqueKeys : UniqueKeys two
unfolding text_eq
two-UniqueKeys = (refl, (refl, tt))

two-idle_count : idle_count two ≢ 0
two-idle_count e = omega (arith, e)

-- An engine that finds the pattern that is the text itself.
abbrev pub matches : String → Text → Option Bool
matches pattern code = some (text_eq (codes pattern) code)

abbrev pub no_analyzers : CodeBuilder
no_analyzers = record { pkg_analyzers = [] }

one-IsExhausted : IsExhausted (manager_of ((codes "a", busy) ∷ []))
unfolding text_eq
one-IsExhausted = record { free = refl; none_idle = refl; nameless = refl }

abbrev both_busy : Containers
both_busy = (codes "a", busy) ∷ (codes "b", busy) ∷ []

two-given :
    get_available_container simple (λ n d. d) (manager_of two)
    ≡ some (codes "b", manager_of both_busy)
unfolding get_available_container get_available_from claim_idle
two-given = refl

abbrev one_listed : List Summary
one_listed = record { id = codes "a"; image = codes "worker"; state = running } ∷ []

py_found : normalize_language (codes "py") ≡ (codes "Python", true)
unfolding normalize_language to_lower text_eq
py_found = refl

abbrev too_long : SanitizationError
too_long = record {
  message = codes "Code length exceeds maximum limit";
  details = codes "Max length allowed is 1000";
}

x_clean : sanitize matches (codes "x") (codes "Python") default_max_code_length ≡ none
unfolding sanitize check_categories has_matching_pattern language_categories dangerous_patterns
    text_eq
x_clean = refl

abbrev one_file : Text → Option GoFile
one_file code = some (record { imports = []; nodes = selector_on_ident (codes "fmt") ∷ [] })

run_job-replies_example :
    (id : Text) × (d' : Manager ℕ) × (run_job simple free_queue quiet sum_job (manager_of two)
      ≡ some ((judge simple id sum_job 0).0, d'))
    × (lookup id two ≡ some idle)
    × (lookup id d'.containers ≡ some idle)
run_job-replies_example =
    run_job-replies simple free_queue quiet sum_job (manager_of two) refl refl two-UniqueKeys
      two-idle_count (λ id e h. h)

-- The run itself: the program's output, without white space around it, is the expected one.
sum_is_accepted : (judge simple (codes "b") sum_job 0).0.success ≡ true
unfolding judge copy_code run_tests run_command trim_space text_eq replace_all
sum_is_accepted = refl

run_job-hangs_example :
    run_job simple free_queue quiet sum_job (manager_of ((codes "a", busy) ∷ [])) ≡ none
run_job-hangs_example =
    run_job-hangs simple free_queue quiet sum_job (manager_of ((codes "a", busy) ∷ [])) refl
      one-IsExhausted (λ n e x. x)

judge-success_example :
    ((judge simple (codes "b") sum_job 0).0.success ≡ true)
    ↔ IsAccepted simple (codes "b") sum_job 0
judge-success_example = judge-success simple (codes "b") sum_job 0

check_health-IsWedged_example :
    Returns (λ _ d'. IsWedged simple d') (check_health simple (manager_of two))
check_health-IsWedged_example = check_health-IsWedged simple (manager_of two) one_listed refl refl

balance_worker-bounded_example :
    Returns
      (λ err d'.
        (d'.locked ≡ false) × (d'.max_workers ≡ 1) × (err ≡ none → length d'.containers ≤ 1))
      (balance_worker simple (manager_of two))
balance_worker-bounded_example = balance_worker-bounded simple (manager_of two) refl two-UniqueKeys

sanitize-accepts_example : (sanitize matches (codes "x = 1") (codes "Python") 1000 ≡ none) ↔ (
    (length (codes "x = 1") ≤ 1000)
    × All (IsClear matches (codes "x = 1")) dangerous_patterns.common
    × All (IsClear matches (codes "x = 1")) (language_categories (codes "Python")))
sanitize-accepts_example = sanitize-accepts matches (codes "x = 1") (codes "Python") 1000
