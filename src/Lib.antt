-- ===== src/Lib.antt =====
-- A model of gonit, a process supervisor in the way of monit, with theorems on it.
--
-- The program keeps a list of checks, most of them processes with a pid file, a start and a stop
-- program, and starts those that are down. A check has a flag, monitored or not. The flags are
-- kept in a database, a map in memory that is saved to a file, from which the next start takes them.
-- The command line works on the checks through the interface `ChecksManager`.
--
-- Files and the code they model:
--   Base      shared names, Boolean tests, sorting of strings, tables, ints of 64 bits, decimal
--             texts, `strings.TrimSpace` and lines, and `Outcome`, which says how a call of a Go
--             function ends: it returns, deadlocks, panics, which stands for the fatal error of a
--             stack overflow too, or exits the process
--   Regex     regular expressions and the leftmost match that Go's `regexp` prefers, with its groups
--   Files     utils/file_accessor.go and `FileExists` of utils/file.go: `ensure_permissions`,
--             `ensure_safe_permissions`, `open_file_secure`; Files/Secure has `ReadSecure`
--             and `WriteSecure`, Files/Access `IsFile`, `IsWritable` and `IsReadable` of utils/file.go.
--             A disk is a table of nodes; there is no umask
--   Pid       utils/process.go, and `Pid`, `IsRunning` and `Status` of `ProcessCheck`
--   Database  database/database.go: `Db` and `FileDb` are `DB` and `FileDB`; the functions have the
--             names of the methods. `Storer` is the interface, as a record of operations and laws,
--             and `file_storer` fills it with `FileDB`
--   Entries   monitor/database.go: `ChecksDatabaseEntry` with its lock, `GetEntry` and `AddEntry`
--   Wait      `WaitUntil` of utils/utils.go
--   Check     monitor/checks.go: `check` and `ProcessCheck` as records, `Initialize`;
--             Check/Once is `doOnce`, Check/Service is `Start`, `Stop`, `Restart` and `Perform`;
--             Check/Initialize says what `Initialize` leaves and changes; Check/Parse is
--             `newCheckFromData`, `Parse` and `parseWithTimeout`; Check/Sync has the
--             shared values `syncBool`, `syncInt`, `syncTime` and `checkState`
--   Registry  `FindCheck` and `findChecks` of monitor/monitor.go
--   Config    the walk of monitor/parsing.go over the directives of a control file, `configWalker`
--             of monitor/config.go, and monitor/validation.go; Config/Text reads the directives from a
--             text, with `cleanLines`, the loop of `ParseConfig` and its regular expressions
--   Monitor   monitor/monitor.go: `update_database`, `add_check`, `set_flag` (`Monitor` and
--             `Unmonitor`), `set_all_flags` (their All forms), `perform`; Monitor/Load has `Reload`,
--             `configLoader` and `New`; Monitor/Operations has `Start`, `Stop`, `Restart` and their
--             All forms, Monitor/Summary the texts of status and summary. Monitor/Threads takes
--             `UpdateDatabase` apart: several goroutines run it, and a step is one access to the
--             database or to the mutex of an entry, or `Serialize`, which may fail
--   Cmd       cmd/common.go: `flattenErrors`, `serviceCommand`, `runCheckCommand`,
--             `newValidatedCommand`; Cmd/Manager has `getChecksManager`, Cmd/Run `getConfig` and
--             `quitDaemon`, and of cmd/root.go `RunMonitor` up to the start of the daemon, Cmd/Start
--             `initApp` and `RunMonitor` in the daemon; Cmd/Remote joins a command, the client and
--             the routes, for a flag, Cmd/Remote/Processes for start, stop and restart, and
--             Cmd/Remote/Restart with the `New` behind it. Cmd/Texts is cmd/status.go,
--             cmd/summary.go, cmd/quit.go and cmd/reload.go; Cmd/Exit has `runCheckCommandAndExit`
--             and the commands on it, `Exit` of utils/file_accessor.go, cmd/version.go,
--             cmd/validate.go and main.go
--   Server    monitor/server.go: the routes of the commands, over the monitor and the states of
--             `doOnce`; Server/Client is monitor/client.go, with its `checkOperation` and what it
--             makes of a reply; Server/Texts has the routes and requests for the texts
--   Daemon    the running program: rounds of `LoopForever`, requests, also those for the texts, the
--             work of `doOnce`, and the signals of cmd/root.go, as a sequence of events;
--             Daemon/Socket is `StartServer` and `Terminate`, with `Start` and `Stop` of
--             monitor/server.go
--   Log       log/log.go, and the logger that `New` of monitor/monitor.go chooses
--   Tests     runs of the model, and each theorem at a concrete input
--
-- State is passed explicitly. A pointer to an entry of the database is its key, and a write through
-- it is `modify`; a check object is found by its id in the list. `sync.RWMutex` is a flag and a
-- count, and a call that waits for a lock its own goroutine holds is `deadlocks`. Goroutines of
-- `doOnce` are a list, and events say which call, timer or return comes next. In `Start`, `Stop`
-- and `Perform` what the process does is a timeline, a parameter, and the goroutine that runs the
-- command is taken to set the flag before the wait behind it ends. Times and counts are natural
-- numbers where the code never makes them negative; the timeout of a command and a pid are ints of 64
-- bits. The events of the daemon follow one another, each call to its end before the next, and so do
-- calls on a shared value: what calls do to each other that run at once is in Monitor/Threads alone,
-- which takes `UpdateDatabase` apart. A control file is read into its directives before the walk over
-- them begins; the walk stops where the code does. A file of the includes that stands deeper than
-- the stack admits is a directive of its own, `too_deep`, and a walk that comes to it ends in the fatal
-- error of a stack overflow. So files that include each other in a circle have a value too.
--
-- Recursion on fuel. `wait_until` gives `wait_from` `timeout + 2` rounds, enough since each round moves
-- the clock by the interval. A repetition in `Regex` has as many rounds as characters are left, and
-- one more: a round that takes none is not repeated. `parse` and `read_config` give their loops the
-- length of the text and one, since each statement or directive takes a character; `parse_from` and
-- `read_from` say `none` if they run out. `read_config` is told how deep files may include each other
-- before the stack overflows, a depth that Go's limit on the stack sets and no code names.
--
-- Parameters: encoding/gob (`Codec`, which reads back what it wrote up to unexported fields:
-- `IsFaithful`; it sends the flag of an entry and not its lock: `Sends`, `DecodesIdle`), the
-- operating system (`Files.Host`, `Check.Host`, `Access`, `Kernel`, `System`, `Environment`,
-- `Printer` for the texts of times, and `Reader` for `filepath.Glob` and `os.ReadFile`), the
-- choice that Go's select makes, the number of the debug level of logrus, the connection of the client
-- (`Connection` and `Getter`, which deliver a request to its route: `Delivers`, `DeliversTexts`), and
-- the `ChecksManager` of the commands.
--
-- Not modelled: the registration of the commands of cmd/ with cobra and how that reads a command line,
-- what logrus makes of a message, the debug texts of `RuntimeDebugStats`, and the helpers of the tests.
-- A Go map that several goroutines access without a mutex has no defined behaviour; in Monitor/Threads
-- each access to the database is a step of its own.
pub mod Base
pub mod Files
pub mod Pid
pub mod Daemon
pub mod Regex
pub mod Database
pub mod Entries
pub mod Wait
pub mod Check
pub mod Registry
pub mod Config
pub mod Log
pub mod Monitor
pub mod Cmd
pub mod Server
pub mod Tests
