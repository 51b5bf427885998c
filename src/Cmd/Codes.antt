-- ===== src/Cmd/Codes.antt =====
-- The exit codes and errors of the commands of cmd/common.go.
use Prim.Native.String.{◌++◌ as ◌+++◌}
use gonit.Base.{
  pos, negsuc, ℕ, ◌≤◌, ◌<◌, ◌≡◌, ◌↔◌, ◌⊎◌, inl, inr, refl, String, true, false, not, ◌&&◌, Option,
  none, some, List, [], ◌∷◌, Outcome, exits, length, arith, ◌==◌, ltb, Option-cases, Bool-cases,
  is_some, sym, ap, ◌∙◌, eq_iff,
}
use gonit.Base.Table.{lookup}
use gonit.Cmd.{
  statuses, flatten_errors, is_all, first_arg, ChecksManager, ServiceCommand, execute_single,
  execute_all, execute, service_command, code_of, run_check_command, validated,
}

-- The callback runs exactly if the number of arguments is between the limits, and gets them as they
-- are; otherwise the process exits with code 2.
pub validated_lem {ℓ} :
    {A : Type ℓ} (name : String) (min_args max_args : ℕ) (cb : List String → Outcome A)
    (args : List String)
    → ((min_args ≤ length args)
        × (length args ≤ max_args)
        × (validated name min_args max_args cb args ≡ cb args))
      ⊎ (((length args < min_args) ⊎ (max_args < length args))
          × ((why : String) × (validated name min_args max_args cb args ≡ exits 2 why)))
unfolding validated
validated_lem name min_args max_args cb args =
    elim (Bool-cases (min_args == max_args && not (length args == min_args))) [
      | inl differ ↦
          inr (ground arith, ("Command " +++ name +++ " requires exactly", rw differ refl))
      | inr same ↦ rw same (elim (Bool-cases (ltb max_args (length args))) [
        | inl above ↦
            inr (inr (ground arith), ("Command " +++ name +++ " requires at most", rw above refl))
        | inr within ↦ rw within (elim (Bool-cases (ltb (length args) min_args)) [
          | inl below ↦
              inr
                (inl (ground arith), ("Command " +++ name +++ " requires at least", rw below refl))
          | inr enough ↦ inl (ground arith, ground arith, rw enough refl)
        ])
      ])
    ]

flatten_errors_lem : (errs : List String) → (flatten_errors errs ≡ none) ↔ (errs ≡ [])
unfolding flatten_errors
flatten_errors_lem [] = (λ _. refl, λ _. refl)
flatten_errors_lem (err ∷ errs) = (λ e. ground (arith, e), λ e. ground (arith, e))

module _ (M : Type 0) where
  -- A command runs one operation of the manager: for "" and "all" the one on all checks, else the one
  -- on the check that the argument names, and leaves the state that this operation leaves. It gives
  -- an error exactly if the operation does, and else for one check a message.
  pub execute_lem :
      (sc : ServiceCommand M) (arg : String) (s : M)
      → ((is_all arg ≡ true)
          × ((execute M sc arg s).2 ≡ (sc.multicheck_cb s).1)
          × (((execute M sc arg s).1 ≡ none) ↔ ((sc.multicheck_cb s).0 ≡ [])))
        ⊎ ((is_all arg ≡ false)
            × ((execute M sc arg s).2 ≡ (sc.single_check_cb arg s).1)
            × (((execute M sc arg s).1 ≡ none) ↔ ((sc.single_check_cb arg s).0 ≡ none)))
  unfolding execute execute_single execute_all flatten_errors
  execute_lem sc arg s = elim (Bool-cases (is_all arg)) [
    | inl every ↦ inl (every, rw every refl, rw every (flatten_errors_lem (sc.multicheck_cb s).0))
    | inr one ↦
        let (after, agrees) = end sc.cmd arg (sc.single_check_cb arg s) in
        inr (one, rw one after, rw one agrees)
  ]
    where
      end :
          (cmd arg : String) (r : Option String × M)
          → ((execute_single M cmd arg r).2 ≡ r.1)
            × (((execute_single M cmd arg r).1 ≡ none) ↔ (r.0 ≡ none))
      end cmd arg (none, s) = (refl, (λ _. refl, λ _. refl))
      end cmd arg (some why, s) = (refl, (λ e. ground (arith, e), λ e. ground (arith, e)))

  knows-service_command :
      (cm : ChecksManager M) (cmd : String)
      → is_some (service_command M cm cmd) ≡ is_some (lookup cmd statuses)
  unfolding service_command lookup
  knows-service_command cm cmd = ground (
    arith,
    eq_iff cmd "start",
    eq_iff cmd "stop",
    eq_iff cmd "restart",
    eq_iff cmd "monitor",
    eq_iff cmd "unmonitor",
    eq_iff "start" cmd,
    eq_iff "stop" cmd,
    eq_iff "restart" cmd,
    eq_iff "monitor" cmd,
    eq_iff "unmonitor" cmd,
  )

  -- The commands that run are those with a status. For these the exit code is 0 without an error
  -- and 1 with one; another command gives -1 and an error, and leaves the manager as it is.
  pub run_check_command_lem :
      (cm : ChecksManager M) (cmd : String) (args : List String) (s : M)
      → ((is_some (lookup cmd statuses) ≡ true)
          × ((((run_check_command M cm cmd args s).1 ≡ pos 0)
                × ((run_check_command M cm cmd args s).2 ≡ none))
              ⊎ (((run_check_command M cm cmd args s).1 ≡ pos 1)
                  × (is_some (run_check_command M cm cmd args s).2 ≡ true))))
        ⊎ ((is_some (lookup cmd statuses) ≡ false)
            × ((run_check_command M cm cmd args s).1 ≡ negsuc 0)
            × (is_some (run_check_command M cm cmd args s).2 ≡ true)
            × ((run_check_command M cm cmd args s).3 ≡ s))
  unfolding run_check_command code_of
  run_check_command_lem cm cmd args s = elim (Option-cases (service_command M cm cmd)) [
    | inl e ↦
        let known = sym (knows-service_command cm cmd) ∙ ap is_some e in
        inr (known, ground (arith, e), ground (arith, e), ground (arith, e))
    | inr (sc, e) ↦
        let known = sym (knows-service_command cm cmd) ∙ ap is_some e in
        inl (known, rw (run_check_command, e) (end (execute M sc (first_arg args) s).1))
  ]
    where
      end :
          (err : Option String)
          → ((code_of M err ≡ pos 0) × (err ≡ none))
            ⊎ ((code_of M err ≡ pos 1) × (is_some err ≡ true))
      end none = inl (refl, refl)
      end (some why) = inr (refl, refl)
