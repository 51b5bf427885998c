-- ===== src/Cmd/Exit/Laws.antt =====
-- How the commands on checks of cmd/common.go end the process.
use gonit.Base.{
  ℤ, ap, pos, negsuc, String, ◌≡◌, ◌≤◌, ◌<◌, ◌⊎◌, inl, inr, refl, true, false, Option, none, some,
  List, returns, exits, is_some, length, arith, Option-cases, ◌∙◌,
}
use gonit.Base.Table.{lookup}
use gonit.Cmd.Codes.{run_check_command_lem, validated_lem}
use gonit.Cmd.Exit.{
  End, exited, line_of, exit_by, exit, exit_with, run_check_command_and_exit, check_command,
}
use gonit.Cmd.{statuses, ChecksManager, run_check_command}

module _ (M : Type 0) where
  -- The two ends of a command that is known, for the message, the error and the manager of
  -- `runCheckCommand`.
  abbrev pub IsEnded : String × Option String × M → End × M → Type 0
  IsEnded (msg, err, s) r =
      ((err ≡ none) × (r ≡ (exited (pos 0) (line_of msg) "", s)))
      ⊎ ((why : String) × (err ≡ some why) × (r ≡ (exited (pos 1) "" (line_of why), s)))

  with_code :
      (msg : String) (code c : ℤ) (err e : Option String) (s t : M)
      → code ≡ c
      → err ≡ e
      → s ≡ t
      → Path (End × M) (exit_with M false msg code err, s) (exit_with M false msg c e, t)
  with_code msg code c err e s t p q r =
      ap (λ x. (exit_with M false msg x err, s)) p
      ∙ ap (λ x. (exit_with M false msg c x, s)) q
      ∙ ap (λ x. (exit_with M false msg c e, x)) r

  run_check_command_and_exit_lem :
      (cm : ChecksManager M) (cmd : String) (args : List String) (s : M)
      → ((is_some (lookup cmd statuses) ≡ true)
          × IsEnded
              (
                (run_check_command M cm cmd args s).0,
                (run_check_command M cm cmd args s).2,
                (run_check_command M cm cmd args s).3,
              )
              (run_check_command_and_exit M false cm cmd args s))
        ⊎ ((is_some (lookup cmd statuses) ≡ false)
            × ((why : String) × ((run_check_command M cm cmd args s).2 ≡ some why)
                × (run_check_command_and_exit M false cm cmd args s
                    ≡ (exited (negsuc 0) "" (line_of why), s))))
  unfolding run_check_command_and_exit exit_with exit exit_by
  run_check_command_and_exit_lem cm cmd args s = elim (run_check_command_lem M cm cmd args s) [
    | inl (known, inl (code, fine)) ↦ inl (known, inl (fine, rw code refl))
    | inl (known, inr (code, fails)) ↦ elim (Option-cases (run_check_command M cm cmd args s).2) [
      | inl none_ ↦ absurd (ground (arith, rw none_ at fails))
      | inr (why, e) ↦ inl (known, inr (why, e, with_code _ _ (pos 1) _ (some why) _ _ code e refl))
    ]
    | inr (unknown, code, fails, same) ↦ elim (Option-cases (run_check_command M cm cmd args s).2) [
      | inl none_ ↦ absurd (ground (arith, rw none_ at fails))
      | inr (why, e) ↦
          inr (unknown, (why, e, with_code _ _ (negsuc 0) _ (some why) _ s code e same))
    ]
  ]

  -- Outside the tests, for a command that has a status: with at most one argument the process exits
  -- with code 0, and prints the message of `runCheckCommand` on the standard output, if this gives no
  -- error, and else exits with code 1 and prints the error on the standard error; nothing else is
  -- printed, no error that is printed is nil, and the manager is as `runCheckCommand` leaves it. With
  -- more arguments the process exits with code 2, and no operation is run.
  pub check_command_lem :
      (cm : ChecksManager M) (cmd : String) (args : List String) (s : M)
      → is_some (lookup cmd statuses) ≡ true
      → ((length args ≤ 1)
          × ((r : End × M) × (check_command M false cm cmd s args ≡ returns r)
              × IsEnded
                  (
                    (run_check_command M cm cmd args s).0,
                    (run_check_command M cm cmd args s).2,
                    (run_check_command M cm cmd args s).3,
                  )
                  r))
        ⊎ ((1 < length args)
            × ((why : String) × (check_command M false cm cmd s args ≡ exits 2 why)))
  unfolding check_command
  check_command_lem cm cmd args s known =
      elim (validated_lem cmd 0 1
        (λ args. returns (run_check_command_and_exit M false cm cmd args s)) args) [
          | inl (_, few, runs) ↦ elim (run_check_command_and_exit_lem cm cmd args s) [
            | inl (_, ended) ↦ inl (few, (_, runs, ended))
            | inr (unknown, _) ↦ absurd (ground (arith, known, unknown))
          ]
          | inr (inl none_, why) ↦ absurd (omega arith)
          | inr (inr many, why) ↦ inr (many, why)
        ]
