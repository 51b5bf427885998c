-- ===== src/Config/Walk.antt =====
-- The walk of monitor/parsing.go with any walker.
use gonit.Base.{String, ◌⊎◌, inl, inr, panics, ◌≡◌, refl, Option, none, some, Outcome, returns}
use gonit.Base.Table.{Table}
use gonit.Check.{Check}
use gonit.Config.{
  overflow, Directives, end, check, bad_check, set_variable, set_object, includes, bad_include,
  too_deep, Files, no_more, file, unreadable, Source, text, refused, Walker, parse_config,
  parse_files, parse_config_file,
}

unfoldable mutual
  -- No file is too deep.
  pub IsShallow : Directives → Type 0
  IsShallow end = Unit
  IsShallow (check c rest) = IsShallow rest
  IsShallow (bad_check why rest) = IsShallow rest
  IsShallow (set_variable key value rest) = IsShallow rest
  IsShallow (set_object what attrs rest) = IsShallow rest
  IsShallow (includes fs rest) = AreShallow fs × IsShallow rest
  IsShallow (bad_include why rest) = IsShallow rest
  IsShallow too_deep = ⊥

  pub AreShallow : Files → Type 0
  AreShallow no_more = Unit
  AreShallow (file ds fs) = IsShallow ds × AreShallow fs
  AreShallow (unreadable why fs) = AreShallow fs

-- The includes of the control file nest no deeper than the stack admits.
abbrev pub IsWithinStack : Source → Type 0
IsWithinStack (text ds) = IsShallow ds
IsWithinStack (refused why) = Unit

module _ {W : Type 0} (walker : Walker W) (I : W → Type 0)
    (adds : (c : Check) (w : W)
      → I w
      → (why : Option String) × (w' : W) × (walker.add_check c w ≡ returns (why, w')) × I w')
    (sets_object : (what : String) (attrs : Table String) (w : W)
      → I w
      → I (walker.set_namespaced_config what attrs w))
    (sets_variable : (key value : String) (w : W)
      → I w
      → I (walker.set_attribute key value w)) where
  abbrev Ends : Outcome (Option String × W) → Type 0
  Ends r = (why : Option String) × (w : W) × (r ≡ returns (why, w)) × I w

  mutual
    unfolding parse_config IsShallow

    parse_config-Ends :
        (ds : Directives) (w : W) → IsShallow ds → I w → Ends (parse_config walker ds w)
    parse_config-Ends end w sh i = (none, w, refl, i)
    parse_config-Ends (check c rest) w sh i =
        let (why, w1, done, i1) = adds c w i in go why w1 done (parse_config-Ends rest w1 sh i1) i1
      where
        go :
            (why : Option String) (w1 : W)
            → walker.add_check c w ≡ returns (why, w1)
            → Ends (parse_config walker rest w1)
            → I w1
            → Ends (parse_config walker (check c rest) w)
        go none w1 done (why', w2, done2, i2) i1 = (why', w2, rw done done2, i2)
        go (some why) w1 done later i1 = (some why, w1, rw done refl, i1)
    parse_config-Ends (bad_check why rest) w sh i = (some why, w, refl, i)
    parse_config-Ends (set_variable key value rest) w sh i =
        parse_config-Ends rest (walker.set_attribute key value w) sh (sets_variable key value w i)
    parse_config-Ends (set_object what attrs rest) w sh i =
        parse_config-Ends rest (walker.set_namespaced_config what attrs w) sh
          (sets_object what attrs w i)
    parse_config-Ends (includes fs rest) w (sh, sh') i =
        let (w1, done1, i1) = parse_files-Ends fs w sh i in
        let (why, w2, done2, i2) = parse_config-Ends rest w1 sh' i1 in (why, w2, rw done1 done2, i2)
    parse_config-Ends (bad_include why rest) w sh i = (some why, w, refl, i)
    parse_config-Ends too_deep w sh i = absurd sh

    parse_files-Ends :
        (fs : Files) (w : W)
        → AreShallow fs
        → I w
        → (w' : W) × (parse_files walker fs w ≡ returns w') × I w'
    parse_files-Ends no_more w sh i = (w, refl, i)
    parse_files-Ends (file ds fs) w (sh, sh') i =
        let (why, w1, done1, i1) = parse_config-Ends ds w sh i in
        let (w2, done2, i2) = parse_files-Ends fs w1 sh' i1 in (w2, rw done1 done2, i2)
    parse_files-Ends (unreadable why fs) w sh i = parse_files-Ends fs w sh i

  -- Without a bound on the includes, the walk may overflow the stack instead.
  abbrev EndsOrOverflows : Outcome (Option String × W) → Type 0
  EndsOrOverflows r = Ends r ⊎ (r ≡ panics overflow)

  mutual
    unfolding parse_config

    parse_config_safe : (ds : Directives) (w : W) → I w → EndsOrOverflows (parse_config walker ds w)
    parse_config_safe end w i = inl (none, w, refl, i)
    parse_config_safe (check c rest) w i =
        let (why, w1, done, i1) = adds c w i in go why w1 done (parse_config_safe rest w1 i1) i1
      where
        go :
            (why : Option String) (w1 : W)
            → walker.add_check c w ≡ returns (why, w1)
            → EndsOrOverflows (parse_config walker rest w1)
            → I w1
            → EndsOrOverflows (parse_config walker (check c rest) w)
        go none w1 done (inl (why', w2, done2, i2)) i1 = inl (why', w2, rw done done2, i2)
        go none w1 done (inr over) i1 = inr (rw done over)
        go (some why) w1 done later i1 = inl (some why, w1, rw done refl, i1)
    parse_config_safe (bad_check why rest) w i = inl (some why, w, refl, i)
    parse_config_safe (set_variable key value rest) w i =
        parse_config_safe rest (walker.set_attribute key value w) (sets_variable key value w i)
    parse_config_safe (set_object what attrs rest) w i =
        parse_config_safe rest (walker.set_namespaced_config what attrs w)
          (sets_object what attrs w i)
    parse_config_safe (includes fs rest) w i = elim (parse_files_safe fs w i) [
      | inr over ↦ inr (rw over refl)
      | inl (w1, done1, i1) ↦ elim (parse_config_safe rest w1 i1) [
        | inr over ↦ inr (rw done1 over)
        | inl (why, w2, done2, i2) ↦ inl (why, w2, rw done1 done2, i2)
      ]
    ]
    parse_config_safe (bad_include why rest) w i = inl (some why, w, refl, i)
    parse_config_safe too_deep w i = inr refl

    parse_files_safe :
        (fs : Files) (w : W)
        → I w
        → ((w' : W) × (parse_files walker fs w ≡ returns w') × I w')
          ⊎ (parse_files walker fs w ≡ panics overflow)
    parse_files_safe no_more w i = inl (w, refl, i)
    parse_files_safe (file ds fs) w i = elim (parse_config_safe ds w i) [
      | inr over ↦ inr (rw over refl)
      | inl (why, w1, done1, i1) ↦ elim (parse_files_safe fs w1 i1) [
        | inr over ↦ inr (rw done1 over)
        | inl (w2, done2, i2) ↦ inl (w2, rw done1 done2, i2)
      ]
    ]
    parse_files_safe (unreadable why fs) w i = parse_files_safe fs w i

  pub parse_config_file_safe :
      (s : Source) (w : W) → I w → EndsOrOverflows (parse_config_file walker s w)
  unfolding parse_config_file
  parse_config_file_safe (text ds) w i = parse_config_safe ds w i
  parse_config_file_safe (refused why) w i = inl (some why, w, refl, i)

  pub parse_config_file-Ends :
      (s : Source) (w : W) → IsWithinStack s → I w → Ends (parse_config_file walker s w)
  unfolding parse_config_file
  parse_config_file-Ends (text ds) w sh i = parse_config-Ends ds w sh i
  parse_config_file-Ends (refused why) w sh i = (some why, w, refl, i)
