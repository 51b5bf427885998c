-- ===== src/Tests/Parsing.antt =====
-- The reading of checks at concrete texts.
use gonit.Config.Walk.{IsShallow}
use gonit.Config.{validating, new_validator, parse_config, validate_check}
use gonit.Registry.{find_check}
use gonit.Base.{false, returns}
use mathlib.Core.Option
use gonit.Base.{pos, negsuc, true, arith, subst, String, ◌≡◌, inr, refl, none, some}
use gonit.Check.{new_process, new_check}
use gonit.Check.Parse.{
  parse, parse_from, parse_statement, parse_with_timeout, new_check_from_data, in_group_name,
}
use gonit.Base.{[], ◌∷◌, length}
use gonit.Base.Table.{insert, erase}
use gonit.Base.Lines.{split_lines}
use gonit.Config.{Directives, end, check, includes, file, no_more, set_object, set_variable}
use gonit.Config.Text.Loop.{AllRead, Overflows, read_config_total, read_config_cycle}
use gonit.Check.Parse.Total.{parse_from_lem}
use gonit.Check.Parse.Group.{parse-group}
use gonit.Base.Decimal.{all_chars}
use gonit.Config.Text.{
  Reader, read_config, read_from, clean_lines, parse_include, parse_obj_set, parse_var_set,
}
use gonit.Regex.{search, match, repeat}
use gonit.Base.Decimal.{parse_int, parse_uint, signed}
use gonit.Base.Trim.{trim_left, trim_right}

minutes : parse_with_timeout " with timeout 2 minutes" ≡ (pos 120000000000, none)
unfolding parse_with_timeout search match repeat parse_int signed parse_uint
minutes = refl

abbrev web_text : String
web_text =
    "check process web\n  with pidfile \"/run/web.pid\"\n  start program = \"/bin/web run\" with timeout 5 seconds\n  stop program = /bin/stop\n"

reads_web :
    new_check_from_data 7 web_text
    ≡ inr (record {
      id = "web";
      address = 7;
      timeout = 120000000000;
      monitored = none;
      process = some (record new_process {
        pid_file = "/run/web.pid";
        start_program = some (record { cmd = "/bin/web run"; timeout = pos 5000000000 });
        stop_program = some (record { cmd = "/bin/stop"; timeout = pos 0 });
      });
    })
unfolding new_check_from_data parse parse_from parse_statement parse_with_timeout search match
    repeat parse_int signed parse_uint trim_left trim_right new_check
reads_web = refl

abbrev control_text : String
control_text =
    "# the control file\nset httpd unixsocket /run/gonit.sock\n\ncheck process web # a comment\n  with pidfile /run/web.pid\ninclude conf.d\nset logfile /var/log/x\n"

abbrev reader : Reader
reader = record {
  glob = λ p. inr ("a" ∷ []);
  read_file = λ f. inr "check disk data\n";
  address = length;
}

-- The directives, behind the comments: the socket, a process, an included file, and a variable.
abbrev control_directives : Directives
control_directives = set_object "httpd" (("unixsocket", "/run/gonit.sock") ∷ []) (
    check
      (record (new_check 1 "web" "process") {
        process = some (record new_process { pid_file = "/run/web.pid" });
      })
      (includes (file (check (new_check 3 "data" "disk") end) no_more)
        (set_variable "logfile" "/var/log/x" end)))

reads : read_config reader 2 [] control_text ≡ some control_directives
unfolding read_config read_from clean_lines split_lines parse_include parse_obj_set parse_var_set
    insert erase new_check_from_data parse parse_from parse_statement parse_with_timeout search
    match repeat parse_int signed parse_uint trim_left trim_right new_check
reads = refl

-- A group loses what stands from its first letter s on.
cuts_group : (parse "group www-servers" new_process).group ≡ "www-"
unfolding parse parse_from parse_statement search match repeat trim_left trim_right
cuts_group = refl

parse_from_lem_example :
    parse_from 40 "with pidfile /run/web.pid" new_process
    ≡ some (parse "with pidfile /run/web.pid" new_process)
parse_from_lem_example = parse_from_lem 40 "with pidfile /run/web.pid" new_process (omega arith)

parse-group_example : all_chars in_group_name (parse "group www-servers" new_process).group ≡ true
parse-group_example = parse-group "group www-servers"

-- A timeout that does not fit 64 bits is a negative duration.
wraps : (parse_with_timeout "with timeout 9223372037 seconds").0 ≡ negsuc 9223372036709551615
unfolding parse_with_timeout search match repeat parse_int signed parse_uint
wraps = refl

-- Files without includes.
reads_files : AllRead reader (read_config reader 1)
unfolding read_config read_from clean_lines split_lines new_check_from_data search match repeat
    trim_left trim_right new_check IsShallow
reads_files name content at e =
    let same : "check disk data\n" ≡ content = cc in
    subst (λ c. (ds : Directives) × (read_config reader 1 at c ≡ some ds) × IsShallow ds) same
      (check (new_check (length (0 ∷ at)) "data" "disk") end, refl, tt)

read_config_total_example :
    (ds : Directives) × (read_config reader 2 [] control_text ≡ some ds) × IsShallow ds
read_config_total_example = read_config_total reader 1 [] control_text reads_files

-- A reader whose only file includes itself.
abbrev looping : Reader
looping = record reader { read_file = λ f. inr "include a" }

read_config_cycle_example :
    Overflows looping validating (read_config looping 5 [] "include a") new_validator
read_config_cycle_example = read_config_cycle looping validating 5 [] new_validator refl refl

-- A conflict ends the walk before it comes so deep.
abbrev stops_early : String
stops_early = "check disk web\ninclude a"

abbrev again : Reader
again = record reader { read_file = λ f. inr stops_early }

conflict_first :
    Option.map (λ ds. parse_config validating ds new_validator) (read_config again 3 [] stops_early)
    ≡ some (
        returns
          (none, record { settings = []; success = false; checks = new_check 1 "web" "disk" ∷ [] }))
unfolding read_config read_from parse_config clean_lines split_lines new_check_from_data
    validate_check find_check parse_include search match repeat trim_left trim_right new_check
conflict_first = refl
