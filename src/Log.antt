-- ===== src/Log.antt =====
-- The loggers of log/log.go, and the one that `New` of monitor/monitor.go chooses. The library logrus
-- is a parameter: the number of its debug level.
pub mod Laws
use gonit.Base.{
  ℕ, String, Bool, not, Option, none, some, List, [], ◌∷◌, if◌then◌else◌, same_text, ◌==◌,
}
use gonit.Base.Lines.{split_lines}
use gonit.Files.{Disk, file_exists}
use Prim.Native.String.{◌++◌ as ◌+++◌}

-- `io.Discard`, the standard output, or a file that is appended to.
pub data Out : Type 0 where
  discard : Out
  stdout : Out
  appended : String → Out

pub data Level : Type 0 where
  info_level : Level
  debug_level : Level

pub record Logger : Type 0 where
  pub out : Out
  pub level : Level

-- The calls of the logger's `Debug` that a call makes, for the formatted text.
unfoldable pub m_logf : ℕ → ℕ → String → List String
m_logf debug level text = if level == debug then split_lines text else []

unfoldable pub m_debugf : ℕ → String → List String
m_debugf debug text = m_logf debug debug text

unfoldable pub stream_logger : Out → Logger
stream_logger w = record { out = w; level = info_level }

abbrev pub dummy_logger : Logger
dummy_logger = record { out = discard; level = info_level }

-- `filepath.Dir`, and the answers of `os.MkdirAll` and of the open of a log file, each an error or none.
pub record System : Type 0 where
  pub dir : String → String
  pub mkdir_all : String → Option String
  pub open_log : String → Option String

module _ (sys : System) (d : Disk String) where
  opened_logger : String → Logger × List String
  unfolding stream_logger
  opened_logger file = elim (sys.open_log file) [
    | some why ↦ (dummy_logger, ("Error opening log file: " +++ why +++ "\n") ∷ [])
    | none ↦ (stream_logger (appended file), [])
  ]

  -- With what it prints on the standard error.
  unfoldable pub file_logger : String → Logger × List String
  unfolding opened_logger
  file_logger file =
      if not (file_exists d (sys.dir file))
      then elim (sys.mkdir_all (sys.dir file)) [
        | some why ↦
            (dummy_logger, ("Error creating parent directory for log file: " +++ why +++ "\n") ∷ [])
        | none ↦ opened_logger file
      ]
      else opened_logger file

  -- The logger of `New`, from the configuration's log file and whether it is verbose.
  unfoldable pub logger_of : String → Bool → Logger × List String
  unfolding file_logger stream_logger
  logger_of log_file verbose =
      let (l, printed) =
        if same_text log_file "-"
        then (stream_logger stdout, [])
        else if not (same_text log_file "")
        then file_logger log_file
        else (dummy_logger, []) in
      (if verbose then record l { level = debug_level } else l, printed)
