-- ===== src/Executor/Sanitize/Patterns.antt =====
-- The table DangerousPatterns of internal/executor/sanitize.go (lines 69 to 274), entry by entry.
-- A pattern is the regular expression's source text.
use rogue_learn_code_battle.Base.{List, [], ◌∷◌, String, Text, codes}

-- PatternCategory
pub record PatternCategory : Type 0 where
  pub name : Text
  pub description : Text
  pub patterns : List String

-- LanguagePatterns
pub record LanguagePatterns : Type 0 where
  pub common : List PatternCategory
  pub language : List (Text × List PatternCategory)

abbrev system_operations : PatternCategory
system_operations = record {
  name = codes "systemOperations";
  description = codes "Dangerous system operations";
  patterns =
      "(?i)(os\\.Remove|os\\.RemoveAll)" ∷ "(?i)(net\\.Listen|net\\.Dial)" ∷ "(?i)(exec\\.Command)"
      ∷ "(?i)(syscall\\.Exec)" ∷ [];
}

abbrev code_execution : PatternCategory
code_execution = record {
  name = codes "codeExecution";
  description = codes "Dynamic code execution";
  patterns = "eval\\(" ∷ "exec\\(" ∷ [];
}

abbrev resource_depletion : PatternCategory
resource_depletion = record {
  name = codes "resourceDepletion";
  description = codes "Resource depletion attacks";
  patterns =
      "(?i)while\\s*\\(\\s*true\\s*\\)" ∷ "(?i)while\\s*\\(\\s*1\\s*\\)"
      ∷ "(?i)for\\s*\\(\\s*;;\\s*\\)" ∷ "(?i)for\\s*\\(;\\s*true\\s*;\\)"
      ∷ "(?i)\\.repeat\\s*\\(\\s*Infinity\\s*\\)"
      ∷ "\\[\\s*\\.\\.\\.Array\\s*\\(\\s*1e\\d+\\s*\\)\\s*\\]" ∷ "Array\\s*\\(\\s*1e\\d+\\s*\\)"
      ∷ "BigInt\\s*\\(\\s*Number\\.MAX_SAFE_INTEGER\\s*\\)\\s*\\*\\s*BigInt"
      ∷ "(?i)setTimeout\\s*\\(\\s*function\\s*\\(\\s*\\)\\s*{\\s*while\\s*\\(\\s*true\\s*\\)" ∷ [];
}

abbrev fork_bombs : PatternCategory
fork_bombs = record {
  name = codes "forkBombs";
  description = codes "Fork bomb attacks";
  patterns =
      "(?i)while\\s*\\(\\s*true\\s*\\)\\s*{\\s*fork\\s*\\(\\s*\\)"
      ∷ "(?i)for\\s*\\(;;\\)\\s*{\\s*fork\\s*\\(\\s*\\)"
      ∷ ":\\s*\\(\\)\\s*{\\s*:\\|:\\s*&\\s*}\\s*;\\s*:" ∷ "define\\s+f\\s+\\(\\)\\s+\\(f\\)&\\s*f"
      ∷ "(?i)while\\s+1;\\s+do\\s+sh\\s+-c\\s+\"\\$0\\s+&\"" ∷ "Process\\.fork\\(\\)"
      ∷ "cluster\\.fork\\(\\)" ∷ "multiprocessing\\.Process" ∷ "pthread_create" ∷ [];
}

abbrev python_dangerous_modules : PatternCategory
python_dangerous_modules = record {
  name = codes "dangerousModules";
  description = codes "Dangerous Python modules";
  patterns =
      "import\\s+os\\s*$"
      ∷ "from\\s+os\\s+import\\s+(system|popen|execl|execle|execlp|execv|execve|execvp|execvpe|spawn)"
      ∷ "import\\s+subprocess" ∷ "import\\s+shutil" ∷ "import\\s+ctypes" ∷ "import\\s+sys"
      ∷ "__import__\\(['\"]os['\"]" ∷ [];
}

abbrev python_dangerous_operations : PatternCategory
python_dangerous_operations = record {
  name = codes "dangerousOperations";
  description = codes "Dangerous Python operations";
  patterns =
      "open\\(.+,\\s*['\"]w['\"]" ∷ "__import__\\(" ∷ "globals\\(\\)\\." ∷ "locals\\(\\)\\."
      ∷ "os\\.system\\(" ∷ "os\\.exec\\(" ∷ "subprocess\\.Popen\\(" ∷ "os\\.fork\\("
      ∷ "threading\\.Thread\\s*\\(.*bomb\\(\\)" ∷ "for\\s*\\(.*\\s*os\\.fork\\(\\)"
      ∷ "while\\s*True\\s*:\\s*os\\.fork\\(\\)" ∷ [];
}

abbrev python_python_resource_depletion : PatternCategory
python_python_resource_depletion = record {
  name = codes "pythonResourceDepletion";
  description = codes "Python resource depletion attacks";
  patterns =
      "while\\s+True\\s*:" ∷ "[[]\\s*0\\s*\\]\\s*\\*\\s*10\\*\\*\\d+"
      ∷ "range\\s*\\(\\s*10\\s*\\*\\*\\s*\\d{2,}\\s*\\)"
      ∷ "'\\s*'\\s*\\.join\\s*\\(\\s*\\[\\s*'A'\\s*\\]\\s*\\*\\s*10\\*\\*\\d+\\s*\\)"
      ∷ "multiprocessing\\.Pool\\s*\\(\\s*processes\\s*=\\s*\\d{3,}\\s*\\)"
      ∷ "threading\\.Thread\\s*\\(\\s*target\\s*=\\s*.+\\s*\\)\\s*\\.start\\s*\\(\\s*\\)"
      ∷ "\\{\\s*\\.\\*\\s*\\.\\*\\s*\\.\\*\\s*\\.\\*\\s*\\}" ∷ [];
}

abbrev go_infinite_loops : PatternCategory
go_infinite_loops = record {
  name = codes "infiniteLoops";
  description = codes "Potential infinite loops";
  patterns = "for\\s*{" ∷ "for\\s+true\\s*{" ∷ "for\\s+;\\s*;\\s*{" ∷ [];
}

abbrev go_dangerous_os_functions : PatternCategory
go_dangerous_os_functions = record {
  name = codes "dangerousOsFunctions";
  description = codes "Dangerous OS functions";
  patterns =
      "os\\.Remove" ∷ "os\\.RemoveAll" ∷ "os\\.Chdir" ∷ "os\\.Chmod" ∷ "os\\.Chown" ∷ "os\\.Exit"
      ∷ "os\\.Link" ∷ "os\\.MkdirAll" ∷ "os\\.Rename" ∷ "os\\.Symlink" ∷ [];
}

abbrev go_go_resource_depletion : PatternCategory
go_go_resource_depletion = record {
  name = codes "goResourceDepletion";
  description = codes "Go resource depletion attacks";
  patterns =
      "make\\s*\\(\\s*\\[\\]\\w+\\s*,\\s*\\d{8,}\\s*\\)"
      ∷ "go\\s+func\\s*\\(\\s*\\)\\s*{\\s*for\\s*{" ∷ "for\\s*\\i\\s*:=\\s*0\\s*;\\s*;\\s*i\\+\\+"
      ∷ "runtime\\.GOMAXPROCS\\s*\\(\\s*\\d{3,}\\s*\\)"
      ∷ "len\\s*\\(\\s*make\\s*\\(\\s*\\[\\]byte\\s*,\\s*1<<\\d{2,}\\s*\\)\\s*\\)" ∷ [];
}

abbrev js_dangerous_modules : PatternCategory
js_dangerous_modules = record {
  name = codes "dangerousModules";
  description = codes "Dangerous JS modules";
  patterns =
      "require\\(['\"]fs['\"]" ∷ "require\\(['\"]child_process['\"]" ∷ "require\\(['\"]http['\"]"
      ∷ "require\\(['\"]https['\"]" ∷ "require\\(['\"]os['\"]"
      ∷ "import\\s+.*\\s+from\\s+['\"]fs['\"]" ∷ "import\\s+.*\\s+from\\s+['\"]child_process['\"]"
      ∷ [];
}

abbrev js_dangerous_operations : PatternCategory
js_dangerous_operations = record {
  name = codes "dangerousOperations";
  description = codes "Dangerous JS operations";
  patterns =
      "process\\.exit" ∷ "Function\\(.*\\)" ∷ "new Function" ∷ "window\\." ∷ "document\\."
      ∷ "localStorage" ∷ "sessionStorage" ∷ "indexedDB" ∷ "WebSocket" ∷ [];
}

abbrev js_js_resource_depletion : PatternCategory
js_js_resource_depletion = record {
  name = codes "jsResourceDepletion";
  description = codes "JavaScript resource depletion attacks";
  patterns =
      "while\\s*\\(\\s*true\\s*\\)" ∷ "for\\s*\\(\\s*;;\\s*\\)"
      ∷ "setTimeout\\s*\\(\\s*function\\s*\\(\\s*\\)\\s*{\\s*location\\.reload\\s*\\(\\s*\\)"
      ∷ "\\.repeat\\s*\\(\\s*1e\\d+\\s*\\)" ∷ "Array\\s*\\(\\s*1e\\d+\\s*\\)"
      ∷ "new\\s+Array\\s*\\(\\s*1e\\d+\\s*\\)"
      ∷ "\\[\\s*\\.\\.\\.Array\\s*\\(\\s*1e\\d+\\s*\\)\\s*\\]"
      ∷ "(?i)\\(\\+\\[\\]\\+\\[\\]\\+\\[\\]\\+\\[\\]\\+\\[\\]\\+\\[\\]\\+\\[\\]" ∷ [];
}

abbrev cpp_dangerous_operations : PatternCategory
cpp_dangerous_operations = record {
  name = codes "dangerousOperations";
  description = codes "Dangerous C++ operations";
  patterns =
      "system\\(" ∷ "exec\\(" ∷ "fork\\(" ∷ "popen\\(" ∷ "delete\\s+.*\\s+;" ∷ "new\\s+.*\\s*;"
      ∷ "std::system" ∷ [];
}

abbrev cpp_cpp_resource_depletion : PatternCategory
cpp_cpp_resource_depletion = record {
  name = codes "cppResourceDepletion";
  description = codes "C++ resource depletion attacks";
  patterns =
      "while\\s*\\(\\s*true\\s*\\)" ∷ "for\\s*\\(\\s*;;\\s*\\)" ∷ "malloc\\s*\\(\\s*UINT_MAX\\s*\\)"
      ∷ "calloc\\s*\\(\\s*UINT_MAX" ∷ "new\\s+char\\s*\\[\\s*UINT_MAX\\s*\\]"
      ∷ "std::vector<\\w+>\\s*\\(\\s*\\d{9,}\\s*\\)"
      ∷ "std::thread\\s*\\(\\s*\\[\\]\\s*\\(\\s*\\)\\s*{\\s*while\\s*\\(\\s*true\\s*\\)"
      ∷ "#include\\s*<fork.h>" ∷ [];
}

-- DangerousPatterns
unfoldable pub dangerous_patterns : LanguagePatterns
dangerous_patterns = record {
  common = system_operations ∷ code_execution ∷ resource_depletion ∷ fork_bombs ∷ [];
  language =
      (
        codes "python",
        python_dangerous_modules ∷ python_dangerous_operations ∷ python_python_resource_depletion
            ∷ [],
      )
      ∷ (codes "go", go_infinite_loops ∷ go_dangerous_os_functions ∷ go_go_resource_depletion ∷ [])
      ∷ (codes "js", js_dangerous_modules ∷ js_dangerous_operations ∷ js_js_resource_depletion ∷ [])
      ∷ (codes "cpp", cpp_dangerous_operations ∷ cpp_cpp_resource_depletion ∷ [])
      ∷ [];
}
