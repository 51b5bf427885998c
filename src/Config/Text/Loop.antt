-- ===== src/Config/Text/Loop.antt =====
-- The loop of `ParseConfig` of monitor/parsing.go, and the files that a text includes.
use Prim.Native.String.{count}
use text.Mathlib.TextLemmas.{length-cons}
use gonit.Base.{
  ℕ, zero, suc, ◌+◌, ◌-◌, ◌≤◌, ◌<◌, ◌≡◌, refl, String, Option, some, List, [], ◌∷◌, same_text, ◌⊎◌,
  panics, inl, inr, arith, Option-cases, Bool-cases,
}
use gonit.Base.Lines.{split_lines}
use gonit.Base.Trim.{trim_left, trim_right, trim_space}
use gonit.Check.{Check}
use gonit.Check.Parse.{new_check_from_data}
use gonit.Config.Walk.{IsShallow, AreShallow}
use gonit.Config.{
  Walker, parse_config, overflow, too_deep, Directives, end, includes, bad_include, Files, no_more,
  file, unreadable,
}
use gonit.Config.Text.{
  Reader, config_re, empty_lines_re, one_re, clean_lines, parse_include, read_files, read_include,
  read_check, read_set, read_directive, read_from, read_config, parse_obj_set,
}
use gonit.Regex.{Pos, Captures, capture, take_chars, search, match, repeat}
use gonit.Regex.Sound.{Takes, search-Takes, least, takes-least}

take_chars_le : (n : ℕ) (s : String) → count (take_chars n s) ≤ count s
take_chars_le zero s = omega arith
take_chars_le (suc n) String.[] = omega arith
take_chars_le (suc n) (String.◌∷◌ c s) =
    omega (arith, length-cons c s, length-cons c (take_chars n s), take_chars_le n s)

least-one_re : 1 ≤ least one_re
unfolding least
least-one_re = omega arith

-- What is left for the next round is shorter: a directive takes characters.
rest_shrinks :
    (s : String) (f : Pos × Captures)
    → search config_re s ≡ some f
    → count (capture 7 f.1) < count s
unfolding least
rest_shrinks s f found =
    let (a, within, takes) = search-Takes config_re s f found in shorter a within takes
  where
    shorter :
        (a : Pos)
        → count a.rest ≤ count s
        → Takes config_re a [] f.0 f.1
        → count (capture 7 f.1) < count s
    shorter a within (b, cs₁, lines, (d, cs₂, taken, (cs₃, left, e))) = rw e (
        omega (
          arith,
          within,
          takes-least empty_lines_re a b [] cs₁ lines,
          takes-least one_re b d cs₁ cs₂ taken,
          least-one_re,
          take_chars_le (count d.rest - count f.0.rest) d.rest,
        ))

module _ (r : Reader) where
  -- Every file that is there is read, at every place, and none of those that it includes is too deep.
  abbrev pub AllRead : (List ℕ → String → Option Directives) → Type 0
  AllRead sub =
      (name content : String) (at : List ℕ)
      → r.read_file name ≡ inr content
      → (ds : Directives) × (sub at content ≡ some ds) × IsShallow ds

  module _ (sub : List ℕ → String → Option Directives) where
    read_files_total :
        (names : List String) (at : List ℕ) (i : ℕ)
        → AllRead sub
        → (fs : Files) × (read_files r sub at i names ≡ some fs) × AreShallow fs
    unfolding read_files IsShallow
    read_files_total [] at i all = (no_more, refl, tt)
    read_files_total (name ∷ names) at i all =
        let (fs, done, sh) = read_files_total names at (i + 1) all in
        by_content fs done sh (r.read_file name) refl
      where
        by_content :
            (fs : Files)
            → read_files r sub at (i + 1) names ≡ some fs
            → AreShallow fs
            → (o : String ⊎ String) → r.read_file name ≡ o
            → (fs' : Files) × (read_files r sub at i (name ∷ names) ≡ some fs') × AreShallow fs'
        by_content fs done sh (inl why) e =
            (unreadable why fs, rw (read_files, done) (rw e refl), sh)
        by_content fs done sh (inr content) e =
            let (ds, read, shallow) = all name content (i ∷ at) e in
            (file ds fs, rw (read_files, done) (rw e (rw read refl)), (shallow, sh))

    read_include_total :
        (at : List ℕ) (config : String) (rest : Directives) (o : String ⊎ List String)
        → AllRead sub
        → r.glob (parse_include config) ≡ o
        → IsShallow rest
        → (ds : Directives) × (read_include r sub at config rest ≡ some ds) × IsShallow ds
    unfolding read_include IsShallow
    read_include_total at config rest (inl why) all e sh =
        (bad_include why rest, rw (read_include, e) refl, sh)
    read_include_total at config rest (inr names) all e sh =
        let (fs, done, shallow) = read_files_total names at 0 all in
        (includes fs rest, rw (read_include, e) (rw done refl), (shallow, sh))

    read_check-IsShallow :
        (at : List ℕ) (config : String) (rest : Directives)
        → IsShallow rest
        → IsShallow (read_check r sub at config rest)
    unfolding read_check IsShallow
    read_check-IsShallow at config rest sh = go (new_check_from_data (r.address at) config) refl
      where
        go :
            (o : String ⊎ Check)
            → new_check_from_data (r.address at) config ≡ o
            → IsShallow (read_check r sub at config rest)
        go (inl why) e = rw (read_check, e) sh
        go (inr c) e = rw (read_check, e) sh

    read_set-IsShallow :
        (config : String) (rest : Directives)
        → IsShallow rest
        → IsShallow (read_set r sub config rest)
    unfolding read_set IsShallow
    read_set-IsShallow config rest sh =
        elim (Bool-cases (same_text ((parse_obj_set config).0) "")) [
          | inl e ↦ rw (read_set, e) sh
          | inr e ↦ rw (read_set, e) sh
        ]

    read_directive_total :
        (at : List ℕ) (directive config : String) (rest : Directives)
        → AllRead sub
        → IsShallow rest
        → (ds : Directives) × (read_directive r sub at directive config rest ≡ some ds)
          × IsShallow ds
    unfolding read_directive
    read_directive_total at directive config rest all sh =
        elim (Bool-cases (same_text directive "include")) [
          | inl e ↦
              let (ds, done, shallow) =
                read_include_total at config rest (r.glob (parse_include config)) all refl sh in
              (ds, rw (read_directive, e) done, shallow)
          | inr e ↦ elim (Bool-cases (same_text directive "check")) [
            | inl e' ↦ (
              read_check r sub at config rest,
              rw (read_directive, e) (rw e' refl),
              read_check-IsShallow at config rest sh,
            )
            | inr e' ↦ elim (Bool-cases (same_text directive "set")) [
              | inl e'' ↦ (
                read_set r sub config rest,
                rw (read_directive, e) (rw e' (rw e'' refl)),
                read_set-IsShallow config rest sh,
              )
              | inr e'' ↦ (rest, rw (read_directive, e) (rw e' (rw e'' refl)), sh)
            ]
          ]
        ]

    read_from_total :
        (fuel : ℕ) (at : List ℕ) (i : ℕ) (s : String)
        → AllRead sub
        → count s < fuel
        → (ds : Directives) × (read_from r sub fuel at i s ≡ some ds) × IsShallow ds
    unfolding read_from IsShallow
    read_from_total zero at i s all h = absurd (omega (arith, h))
    read_from_total (suc fuel) at i s all h = elim (Option-cases (search config_re s)) [
      | inl over ↦ (end, rw (read_from, over) refl, tt)
      | inr (f, found) ↦
          let less = rest_shrinks s f found in
          let (rest, later, sh) =
            read_from_total fuel at (i + 1) (capture 7 f.1) all (omega (arith, less, h)) in
          let (ds, done, shallow) =
            read_directive_total (i ∷ at) (trim_space (capture 4 f.1)) (trim_space (capture 2 f.1))
              rest all sh in
          (ds, rw (read_from, found) (rw later done), shallow)
    ]

  -- If the files that the system gives are read to a depth, and none that they include is deeper,
  -- then every text is read to one more, and no file that it includes is deeper: the loop of
  -- `ParseConfig` ends.
  pub read_config_total :
      (depth : ℕ) (at : List ℕ) (s : String)
      → AllRead (read_config r depth)
      → (ds : Directives) × (read_config r (suc depth) at s ≡ some ds) × IsShallow ds
  unfolding read_config
  read_config_total depth at s all =
      read_from_total (read_config r depth) (count (clean_lines s) + 1) at 0 (clean_lines s) all
        (omega arith)

  module _ {W : Type 0} (walker : Walker W) where
    -- The text is read, and the walk over it overflows the stack.
    abbrev pub Overflows : Option Directives → W → Type 0
    Overflows o w = (ds : Directives) × (o ≡ some ds) × (parse_config walker ds w ≡ panics overflow)

    includes_itself :
        (sub : List ℕ → String → Option Directives) (at : List ℕ) (w : W)
        → r.glob "a" ≡ inr ("a" ∷ [])
        → r.read_file "a" ≡ inr "include a"
        → Overflows (sub (0 ∷ at) "include a") w
        → Overflows (read_include r sub at "include a" end) w
    unfolding read_include read_files parse_include parse_config search match repeat
    includes_itself sub at w g f (ds, deeper, over) =
        let files : read_files r sub at 0 ("a" ∷ []) ≡ some (file ds no_more) =
          rw (read_files, f) (rw deeper refl) in
        (includes (file ds no_more) end, rw (read_include, g) (rw files refl), rw over refl)

    -- A file `a` that is found by its name and whose text is just `include a` is read to any depth
    -- that the stack admits, and the walk over it overflows the stack, whatever the walker does.
    pub read_config_cycle :
        (depth : ℕ) (at : List ℕ) (w : W)
        → r.glob "a" ≡ inr ("a" ∷ [])
        → r.read_file "a" ≡ inr "include a"
        → Overflows (read_config r depth at "include a") w
    unfolding read_config read_from read_directive parse_config clean_lines split_lines search match
        repeat trim_left trim_right
    read_config_cycle zero at w g f = (too_deep, refl, refl)
    read_config_cycle (suc depth) at w g f =
        includes_itself (read_config r depth) (0 ∷ at) w g f
          (read_config_cycle depth (0 ∷ 0 ∷ at) w g f)
