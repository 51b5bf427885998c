-- ===== src/Check/Parse/Group.antt =====
-- The group that `Parse` of `ProcessCheck` in monitor/checks.go reads.
use Prim.Native.String.{count}
use gonit.Base.{
  subst, some-injective, ℕ, zero, suc, ◌≡◌, refl, String, true, some, arith, Option-cases, inl, inr,
  [], ◌+◌, ◌==◌,
}
use gonit.Base.Decimal.{all_chars}
use gonit.Base.Trim.{trim_space, all_chars-trim}
use gonit.Regex.{Pos, Captures, capture, search}
use gonit.Regex.Sound.{Takes, search-Takes}
use gonit.Regex.Taken.{takes-some_of}
use gonit.Check.{Process, new_process}
use gonit.Check.Parse.Total.{parse_from_lem}
use gonit.Check.Parse.{
  in_group_name, group_re, program_re, with_re, process_opt_re, parse_statement, parse_from, parse,
}

-- The group that the regular expression captures.
capture-group_re :
    (a b : Pos) (cs cs' : Captures)
    → Takes (group_re 1) a cs b cs'
    → all_chars in_group_name (capture 1 cs') ≡ true
capture-group_re a b cs cs' (d, cs₁, literal, (d', cs₂, spaces, (cs₃, name, e))) =
    rw e (takes-some_of in_group_name d' b cs₂ cs₃ name)

abbrev HasPlainGroup : Process → Type 0
HasPlainGroup p = all_chars in_group_name p.group ≡ true

parse_statement-HasPlainGroup :
    (s : String) (p : Process) → HasPlainGroup p → HasPlainGroup (parse_statement s p)
unfolding parse_statement
parse_statement-HasPlainGroup s p h = elim (Option-cases (search (group_re 1) s)) [
  | inr (f, found) ↦
      let (a, within, takes) = search-Takes (group_re 1) s f found in
      rw (parse_statement, found)
        (all_chars-trim (λ c. c == b'"') in_group_name (capture 1 f.1)
          (capture-group_re a f.0 [] f.1 takes))
  | inl other ↦
      rw (parse_statement, other)
        (elim (Option-cases (search (program_re "start" 1) s)) [
          | inr (f, found) ↦ rw found h
          | inl other ↦ rw other (elim (Option-cases (search (program_re "stop" 1) s)) [
            | inr (f, found) ↦ rw found h
            | inl other ↦ rw other (elim (Option-cases (search (with_re 1) s)) [
              | inl over ↦ rw over h
              | inr (f, found) ↦ rw found (ground (arith, h))
            ])
          ])
        ])
]

parse_from-HasPlainGroup :
    (fuel : ℕ) (s : String) (p p' : Process)
    → HasPlainGroup p
    → parse_from fuel s p ≡ some p'
    → HasPlainGroup p'
unfolding parse_from
parse_from-HasPlainGroup zero s p p' h e = absurd (ground (arith, e))
parse_from-HasPlainGroup (suc fuel) s p p' h e = elim (Option-cases (search process_opt_re s)) [
  | inl over ↦ subst HasPlainGroup (some-injective (rw (parse_from, over) at e)) h
  | inr (f, found) ↦
      let st = trim_space (capture 1 f.1) in
      parse_from-HasPlainGroup fuel f.0.rest (parse_statement st p) p'
        (parse_statement-HasPlainGroup st p h) (rw (parse_from, found) at e)
]

-- Whatever the text of a new process is, the group that `Parse` reads from it has no backslash and
-- no letter s.
pub parse-group : (s : String) → all_chars in_group_name (parse s new_process).group ≡ true
parse-group s =
    parse_from-HasPlainGroup (count s + 1) s new_process (parse s new_process) refl
      (parse_from_lem (count s + 1) s new_process (omega arith))
