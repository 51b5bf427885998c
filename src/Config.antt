-- ===== src/Config.antt =====
-- The configuration: the walk of monitor/parsing.go over a file's directives, the interface
-- `configWalker` of monitor/config.go, and the validator of monitor/validation.go.
-- Here a file is the list of its directives, and an `include` the list of the files that
-- `filepath.Glob` has matched; Config/Text reads these from a text.
pub mod Walk
pub mod Validation
pub mod Text
use gonit.Base.{
  String, Bool, true, false, Option, none, some, List, [], ◌∷◌, ◌++◌, Outcome, returns, panics,
  ◌>>=◌, if◌then◌else◌, is_some,
}
use gonit.Base.Table.{Table, insert}
use gonit.Check.{Check}
use gonit.Registry.{find_check, conflict}

mutual
  -- `check`, or one that `newCheckFromData` refuses; `set` of a variable or of an object; `include`,
  -- or one with a pattern that is refused; `too_deep` is a file that stands so deep in files which
  -- include each other that the stack does not admit a further call.
  pub data Directives : Type 0 where
    end : Directives
    check : Check → Directives → Directives
    bad_check : String → Directives → Directives
    set_variable : String → String → Directives → Directives
    set_object : String → Table String → Directives → Directives
    includes : Files → Directives → Directives
    bad_include : String → Directives → Directives
    too_deep : Directives

  pub data Files : Type 0 where
    no_more : Files
    file : Directives → Files → Files
    unreadable : String → Files → Files

-- What `os.ReadFile` gives of the control file.
pub data Source : Type 0 where
  text : Directives → Source
  refused : String → Source

-- The fatal error of a recursion without end.
abbrev pub overflow : String
overflow = "stack overflow"

pub record Walker (W : Type 0) : Type 0 where
  pub add_check : Check → W → Outcome (Option String × W)
  pub set_namespaced_config : String → Table String → W → W
  pub set_attribute : String → String → W → W

module _ {W : Type 0} (walker : Walker W) where
  unfoldable mutual
    pub parse_config : Directives → W → Outcome (Option String × W)
    parse_config end w = returns (none, w)
    parse_config (check c rest) w = do
      r ← walker.add_check c w
      elim r.0 [ none ↦ parse_config rest r.1 | some why ↦ returns (some why, r.1) ]
    parse_config (bad_check why rest) w = returns (some why, w)
    parse_config (set_variable key value rest) w =
        parse_config rest (walker.set_attribute key value w)
    parse_config (set_object what attrs rest) w =
        parse_config rest (walker.set_namespaced_config what attrs w)
    parse_config (includes fs rest) w = do w' ← parse_files fs w; parse_config rest w'
    parse_config (bad_include why rest) w = returns (some why, w)
    parse_config too_deep w = panics overflow

    -- The errors of included files are dropped.
    pub parse_files : Files → W → Outcome W
    parse_files no_more w = returns w
    parse_files (file ds fs) w = do r ← parse_config ds w; parse_files fs r.1
    parse_files (unreadable why fs) w = parse_files fs w

  unfoldable pub parse_config_file : Source → W → Outcome (Option String × W)
  unfolding parse_config
  parse_config_file (text ds) w = parse_config ds w
  parse_config_file (refused why) w = returns (some why, w)

pub record Validator : Type 0 where
  pub settings : Table String
  pub success : Bool
  pub checks : List Check

abbrev pub new_validator : Validator
new_validator = record { settings = []; success = true; checks = [] }

unfoldable pub validate_check : Check → Validator → Outcome (Option String × Validator)
validate_check c v =
    if is_some (find_check c.id v.checks)
    then returns (some (conflict c.id), record v { success = false })
    else returns (none, record v { checks = v.checks ++ c ∷ [] })

abbrev pub validating : Walker Validator
validating = record {
  add_check = validate_check;
  set_namespaced_config = λ what attrs v. v;
  set_attribute = λ key value v. record v { settings = insert key value v.settings };
}
