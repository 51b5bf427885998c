-- ===== src/Check/Parse/Total.antt =====
-- The loop of `Parse` of `ProcessCheck` in monitor/checks.go.
use Prim.Native.String.{count}
use gonit.Base.{
  ℕ, zero, suc, ◌+◌, ◌≤◌, ◌<◌, ◌≡◌, refl, String, Option, none, some, arith, inl, inr, Option-cases,
}
use gonit.Base.Trim.{trim_space}
use gonit.Regex.{capture, search}
use gonit.Regex.Sound.{least, search-shrinks}
use gonit.Check.{Process}
use gonit.Check.Parse.{process_opt_re, parse_statement, parse_from, parse}

-- Every statement takes a character.
least-process_opt_re : 1 ≤ least process_opt_re
unfolding least
least-process_opt_re = omega arith

parse_from_total :
    (fuel : ℕ) (s : String) (p : Process)
    → count s < fuel
    → (p' : Process) × (parse_from fuel s p ≡ some p')
unfolding parse_from
parse_from_total zero s p h = absurd (omega (arith, h))
parse_from_total (suc fuel) s p h = elim (Option-cases (search process_opt_re s)) [
  | inl over ↦ (p, rw (parse_from, over) refl)
  | inr (f, found) ↦
      let less = search-shrinks process_opt_re s f found in
      let (p', done) =
        parse_from_total fuel f.0.rest (parse_statement (trim_space (capture 1 f.1)) p)
          (omega (arith, less, least-process_opt_re, h)) in
      (p', rw (parse_from, found) done)
]

parse_from_stable :
    (fuel fuel' : ℕ) (s : String) (p : Process)
    → count s < fuel
    → count s < fuel'
    → parse_from fuel s p ≡ parse_from fuel' s p
unfolding parse_from
parse_from_stable zero fuel' s p h h' = absurd (omega (arith, h))
parse_from_stable (suc fuel) zero s p h h' = absurd (omega (arith, h'))
parse_from_stable (suc fuel) (suc fuel') s p h h' = elim (Option-cases (search process_opt_re s)) [
  | inl over ↦ rw (parse_from, over) refl
  | inr (f, found) ↦
      let less = search-shrinks process_opt_re s f found in
      rw (parse_from, found)
        (parse_from_stable fuel fuel' f.0.rest (parse_statement (trim_space (capture 1 f.1)) p)
          (omega (arith, less, least-process_opt_re, h))
          (omega (arith, less, least-process_opt_re, h')))
]

given :
    (o : Option Process) (p p' : Process)
    → o ≡ some p'
    → o ≡ some (elim o [ none ↦ p | some q ↦ q ])
given none p p' e = absurd (ground (arith, e))
given (some q) p p' e = refl

-- With more fuel than the text has characters the loop of `Parse` ends, with the process that
-- `parse` gives.
pub parse_from_lem :
    (fuel : ℕ) (s : String) (p : Process) → count s < fuel → parse_from fuel s p ≡ some (parse s p)
unfolding parse
parse_from_lem fuel s p h =
    let (p', done) = parse_from_total (count s + 1) s p (omega arith) in
    rw (parse_from_stable fuel (count s + 1) s p h (omega arith))
      (given (parse_from (count s + 1) s p) p p' done)
