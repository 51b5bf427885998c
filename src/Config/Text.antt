-- ===== src/Config/Text.antt =====
-- The reading of a configuration text in monitor/parsing.go: `cleanLines`, the loop of `ParseConfig`
-- with its regular expressions, and what the walk then finds in the text.
pub mod Loop
use Prim.Native.String.{count}
use gonit.Base.{
  ℕ, zero, suc, ◌+◌, ◌==◌, ◌||◌, not, String, Bool, true, false, Option, none, some, List, [], ◌∷◌,
  if◌then◌else◌, same_text, is_some, ◌⊎◌, inl, inr,
}
use gonit.Base.Lines.{split_lines, join_lines}
use gonit.Base.Table.{Table, insert}
use gonit.Base.Trim.{trim_space}
use gonit.Check.Parse.{is_blank, not_newline, blanks, word, anything, new_check_from_data}
use gonit.Config.{
  Directives, end, check, bad_check, set_variable, set_object, includes, bad_include, too_deep,
  Files, no_more, file, unreadable, Source, text, refused,
}
use gonit.Regex.{
  Regex, chars, seq, alt, many, few, group, empty, at_start, at_end, capture, some_of, search,
}
use gonit.Regex as Regex

-- `\s*`, `(.*)`
abbrev spaces : Regex
spaces = many (chars is_blank)

abbrev line : Regex
line = many (chars not_newline)

abbrev starts_with_comment_re : Regex
starts_with_comment_re = seq at_start (seq spaces (seq (Regex.text "#") line))

abbrev ends_with_comment_re : Regex
ends_with_comment_re = seq at_start (
    seq spaces (
      seq (group 1 (seq (chars (λ c. not (is_blank c || c == b'#'))) (few (chars not_newline))))
        (Regex.text "#")))

clean_each : List String → List String
clean_each [] = []
clean_each (l ∷ ls) =
    let rest = clean_each ls in
    if is_some (search starts_with_comment_re l)
    then rest
    else elim (search ends_with_comment_re l) [ none ↦ l ∷ rest | some f ↦ capture 1 f.1 ∷ rest ]

unfoldable pub clean_lines : String → String
unfolding clean_each
clean_lines s = join_lines (clean_each (split_lines s))

abbrev var_set_re : Regex
var_set_re = seq spaces (seq (Regex.text "set") (seq blanks (seq (group 1 word) (group 2 line))))

-- The key and the value; both are empty if there is no match.
unfoldable pub parse_var_set : String → String × String
parse_var_set s = elim (search var_set_re s) [
  | none ↦ ("", "")
  | some f ↦ (trim_space (capture 1 f.1), trim_space (capture 2 f.1))
]

abbrev any_of : List String → Regex
any_of [] = Regex.text ""
any_of (w ∷ []) = Regex.text w
any_of (w ∷ ws) = alt (Regex.text w) (any_of ws)

abbrev obj_set_re : Regex
obj_set_re = seq at_start (
    seq spaces (
      seq (Regex.text "set") (
        seq blanks (
          seq
            (group 1 (
              any_of (
                "daemon" ∷ "ssl" ∷ "tls" ∷ "httpd" ∷ "alert" ∷ "mail-format" ∷ "mailserver"
                ∷ "eventqueue" ∷ "limits" ∷ [])))
            (seq blanks (group 2 line))))))

abbrev settings_re : Regex
settings_re =
    seq at_start (
      seq spaces (seq (group 1 word) (seq blanks (seq (group 2 word) (group 3 (seq line at_end))))))

-- The loop over the settings. Each takes a character.
settings_from : ℕ → String → Table String → Table String
settings_from zero s result = result
settings_from (suc fuel) s result = elim (search settings_re s) [
  | none ↦ result
  | some f ↦ settings_from fuel (capture 3 f.1) (insert (capture 1 f.1) (capture 2 f.1) result)
]

-- The kind of the object, `""` if it is none, and its settings.
unfoldable pub parse_obj_set : String → String × Table String
unfolding settings_from
parse_obj_set s = elim (search obj_set_re s) [
  | none ↦ ("", [])
  | some f ↦ (capture 1 f.1, settings_from (count (capture 2 f.1) + 1) (capture 2 f.1) [])
]

abbrev include_re : Regex
include_re = seq spaces (seq (Regex.text "include") (seq blanks (group 1 line)))

unfoldable pub parse_include : String → String
parse_include s = elim (search include_re s) [ none ↦ "" | some f ↦ capture 1 f.1 ]

-- `directivePattern`, with two groups
abbrev directive_re : ℕ → Regex
directive_re n =
    seq (group n (alt (chars (λ c. c == b'\n')) at_start))
      (seq spaces (group (n + 1) (any_of ("check" ∷ "include" ∷ "set" ∷ []))))

-- The three parts of `re`: empty lines, a directive, and what is behind it.
abbrev pub empty_lines_re : Regex
empty_lines_re = many (group 1 (seq spaces (Regex.text "\n")))

abbrev pub one_re : Regex
one_re = group 2 (seq (directive_re 3) (seq blanks (group 5 (few (group 6 anything)))))

abbrev pub others_re : Regex
others_re =
    group 7 (
      alt (group 8 (seq (directive_re 9) (seq (Regex.text " ") (many (group 11 anything))))) at_end)

abbrev pub config_re : Regex
config_re = seq empty_lines_re (seq one_re others_re)

-- The system's part: `filepath.Glob` and `os.ReadFile`, with an error or without, and the address of
-- the object that a directive makes, which is known by its place: its number in its file, and behind
-- it those of the include directives and files above.
pub record Reader : Type 0 where
  pub glob : String → String ⊎ List String
  pub read_file : String → String ⊎ String
  pub address : List ℕ → ℕ

module _ (r : Reader) where
  module _ (sub : List ℕ → String → Option Directives) where
    read_files : List ℕ → ℕ → List String → Option Files
    read_files at i [] = some no_more
    read_files at i (name ∷ names) =
        let rest = read_files at (i + 1) names in
        elim rest [
          | none ↦ none
          | some fs ↦ elim (r.read_file name) [
            | inl why ↦ some (unreadable why fs)
            | inr content ↦ elim (sub (i ∷ at) content) [
              | none ↦ none
              | some ds ↦ some (file ds fs)
            ]
          ]
        ]

    read_include : List ℕ → String → Directives → Option Directives
    unfolding read_files
    read_include at config rest = elim (r.glob (parse_include config)) [
      | inl why ↦ some (bad_include why rest)
      | inr names ↦ elim (read_files at 0 names) [ none ↦ none | some fs ↦ some (includes fs rest) ]
    ]

    read_check : List ℕ → String → Directives → Directives
    read_check at config rest = elim (new_check_from_data (r.address at) config) [
      | inl why ↦ bad_check why rest
      | inr c ↦ check c rest
    ]

    read_set : String → Directives → Directives
    read_set config rest =
        let (what, attrs) = parse_obj_set config in
        let (key, value) = parse_var_set config in
        if same_text what "" then set_variable key value rest else set_object what attrs rest

    read_directive : List ℕ → String → String → Directives → Option Directives
    unfolding read_include read_check read_set
    read_directive at directive config rest =
        if same_text directive "include"
        then read_include at config rest
        else if same_text directive "check"
        then some (read_check at config rest)
        else if same_text directive "set"
        then some (read_set config rest)
        else some rest

    -- The loop of `ParseConfig`. `none`: out of fuel, here or in an included file.
    unfoldable pub read_from : ℕ → List ℕ → ℕ → String → Option Directives
    unfolding read_directive
    read_from zero at i s = none
    read_from (suc fuel) at i s = elim (search config_re s) [
      | none ↦ some end
      | some f ↦ elim (read_from fuel at (i + 1) (capture 7 f.1)) [
        | none ↦ none
        | some rest ↦
            read_directive (i ∷ at) (trim_space (capture 4 f.1)) (trim_space (capture 2 f.1)) rest
      ]
    ]

  -- The directives of a text, with the depth to which the stack admits files that include each other.
  unfoldable pub read_config : ℕ → List ℕ → String → Option Directives
  unfolding read_from
  read_config zero at s = some too_deep
  read_config (suc depth) at s =
      let cleaned = clean_lines s in
      read_from (λ at' s'. read_config depth at' s') (count cleaned + 1) at 0 cleaned

  -- `ParseConfigFile`, up to the walk.
  unfoldable pub read_source : ℕ → String → Option Source
  read_source depth name = elim (r.read_file name) [
    | inl why ↦ some (refused why)
    | inr s ↦ elim (read_config depth [] s) [ none ↦ none | some ds ↦ some (text ds) ]
  ]
