-- ===== src/Check/Parse.antt =====
-- The reading of a check's text in monitor/checks.go: `newCheckFromData`, `Parse` of `ProcessCheck`
-- and `parseWithTimeout`, with their regular expressions.
pub mod Total
pub mod Group
pub mod Timeout
use Prim.Native.Char.{code}
use Prim.Native.String.{count}
use mathlib.Core.Option
use gonit.Base.{
  ℕ, zero, suc, ◌+◌, ◌*◌, ◌==◌, ◌||◌, ℤ, pos, times, String, Bool, true, false, not, Option, none,
  some, if◌then◌else◌, same_text, ◌⊎◌, inl, inr,
}
use gonit.Base.Decimal.{parse_int}
use gonit.Base.Trim.{trim, trim_space}
use gonit.Regex.{
  Regex, chars, seq, alt, many, few, group, empty, at_start, capture, Found, text, some_of, maybe,
  search,
}
use gonit.Check.{Check, Command, Process, second, new_check}

-- `\s`, `.`
abbrev pub is_blank : ℕ → Bool
is_blank c = c == b'\t' || c == b'\n' || c == 12 || c == b'\r' || c == b' '

abbrev pub not_newline : ℕ → Bool
not_newline c = not (c == b'\n')

-- `\s+`, `[^\s]+`
abbrev pub blanks : Regex
blanks = some_of (chars is_blank)

abbrev pub word : Regex
word = some_of (chars (λ c. not (is_blank c)))

-- `(.|\n)`
abbrev pub anything : Regex
anything = alt (chars not_newline) (chars (λ c. c == b'\n'))

-- Every `strings.Trim(str, "\"")`.
abbrev pub unquote : String → String
unquote s = trim (λ c. c == b'"') s

-- The class `[^\\s]` of the code: neither a backslash nor the letter s.
abbrev pub in_group_name : ℕ → Bool
in_group_name c = not (c == b'\\' || c == b's')

abbrev pub group_re : ℕ → Regex
group_re n = seq (text "group") (seq blanks (group n (some_of (chars in_group_name))))

-- `"[^"]+"|[^\s]+`
abbrev pub program_text : Regex
program_text = alt (seq (text "\"") (seq (some_of (chars (λ c. not (c == b'"')))) (text "\""))) word

-- `startRe` and `stopRe`, for the word `start` or `stop`.
abbrev pub program_re : String → ℕ → Regex
program_re what n = seq (text what) (
    seq blanks (
      seq (text "program") (
        seq blanks (
          seq (text "=")
            (seq blanks (seq (group n program_text) (group (n + 1) (many (chars not_newline)))))))))

abbrev pub if_re : ℕ → Regex
if_re n = seq (text "if") (seq blanks (group n (some_of (chars not_newline))))

abbrev pub with_re : ℕ → Regex
with_re n = seq (text "with") (seq blanks (seq (group n word) (seq blanks (group (n + 1) word))))

abbrev pub process_opt_re : Regex
process_opt_re = seq at_start (
    seq (many (chars is_blank)) (
      group 1 (
        alt (group_re 2)
          (alt (program_re "start" 3) (alt (program_re "stop" 5) (alt (if_re 7) (with_re 8)))))))

abbrev pub with_timeout_re : Regex
with_timeout_re = seq (text "with") (
    seq blanks (
      seq (text "timeout") (
        seq blanks (
          seq (group 1 word) (
            seq blanks (
              seq
                (group 2 (
                  alt (text "millisecond")
                    (alt (text "second") (alt (text "minute") (alt (text "hour") (text "day"))))))
                (maybe (text "s"))))))))

-- The duration of a unit, if it has one.
abbrev pub unit_of : String → Option ℕ
unit_of unit =
    if same_text unit "millisecond"
    then some 1000000
    else if same_text unit "second"
    then some second
    else if same_text unit "minute"
    then some (60 * second)
    else if same_text unit "hour"
    then some (3600 * second)
    else if same_text unit "day"
    then some (24 * 3600 * second)
    else none

timeout_of : Option ℤ → String → ℤ × Option String
timeout_of none unit = (pos 0, some "invalid syntax")
timeout_of (some n) unit = elim (unit_of unit) [
  | none ↦ (pos 0, some "Unknown unit")
  | some k ↦ (times n k, none)
]

-- The duration and the error. The multiplication is that of int64.
unfoldable pub parse_with_timeout : String → ℤ × Option String
unfolding timeout_of
parse_with_timeout s = elim (search with_timeout_re s) [
  | none ↦ (pos 0, none)
  | some f ↦ timeout_of (parse_int (capture 1 f.1)) (capture 2 f.1)
]

-- `newCommand`
abbrev pub new_command : String → ℤ → Command
new_command cmd_str timeout = record { cmd = unquote cmd_str; timeout = timeout }

-- The `switch` on a statement; the errors and the other statements are only logged.
unfoldable pub parse_statement : String → Process → Process
parse_statement statement p = elim (search (group_re 1) statement) [
  | some f ↦ record p { group = unquote (capture 1 f.1) }
  | none ↦ elim (search (program_re "start" 1) statement) [
    | some f ↦ record p {
      start_program =
          some (new_command (unquote (capture 1 f.1)) (parse_with_timeout (capture 2 f.1)).0);
    }
    | none ↦ elim (search (program_re "stop" 1) statement) [
      | some f ↦ record p {
        stop_program =
            some (new_command (unquote (capture 1 f.1)) (parse_with_timeout (capture 2 f.1)).0);
      }
      | none ↦ elim (search (with_re 1) statement) [
        | some f ↦
            if same_text (capture 1 f.1) "pidfile"
            then record p { pid_file = unquote (capture 2 f.1) }
            else p
        | none ↦ p
      ]
    ]
  ]
]

-- The loop of `Parse`. `none`: out of fuel.
unfoldable pub parse_from : ℕ → String → Process → Option Process
parse_from zero to_parse p = none
parse_from (suc fuel) to_parse p = elim (search process_opt_re to_parse) [
  | none ↦ some p
  | some f ↦ parse_from fuel f.0.rest (parse_statement (trim_space (capture 1 f.1)) p)
]

-- Each statement takes a character: the length of the text, and one, is fuel enough.
unfoldable pub parse : String → Process → Process
parse s p = elim (parse_from (count s + 1) s p) [ none ↦ p | some p' ↦ p' ]

abbrev pub check_re : Regex
check_re = seq (alt (chars (λ c. c == b'\n')) at_start) (
    seq (text "check")
      (seq blanks (seq (group 2 word) (seq blanks (seq (group 3 word) (group 4 (many anything)))))))

-- `newCheckFromData`, for an object at an address
unfoldable pub new_check_from_data : ℕ → String → String ⊎ Check
new_check_from_data address s = elim (search check_re s) [
  | none ↦ inl "Cannot parse check definition"
  | some f ↦
      let c = new_check address (capture 3 f.1) (capture 2 f.1) in
      inr (record c { process = Option.map (parse (capture 4 f.1)) c.process })
]
