-- ===== src/Server/Texts/Answers.antt =====
-- The routes of monitor/server.go for the texts of status and summary, on checks whose flags are set.
use gonit.Base.{
  true, String, ◌≡◌, refl, subst, Option, none, some, some-injective, List, [], ◌∷◌, Outcome,
  returns, same_text, Bool-cases, inl, inr,
}
use gonit.Check.{Host}
use gonit.Database.Storer.{Storer}
use gonit.Entries.{Value}
use gonit.Monitor.Summary.{Printer, Facts, summary_text_lem}
use gonit.Monitor.Summary.Status.{status_text-returns}
use gonit.Monitor.{Monitor}
use gonit.Registry.{IsSetUp}
use gonit.Server.Texts.{text_of, serve_text}
use gonit.Server.{CmdResponse}

module _ (S : Storer Value) (h : Host) (w : Printer) (facts : Facts) where
  abbrev Returns : (List String → Monitor S → Outcome String) → Type 0
  Returns text =
      (args : List String) (m : Monitor S)
      → IsSetUp m.checks
      → (s : String) × (text args m ≡ returns s)

  text_of-Returns :
      (cmd : String) (text : List String → Monitor S → Outcome String)
      → text_of S h w facts cmd ≡ some text
      → Returns text
  text_of-Returns cmd text e = elim (Bool-cases (same_text cmd "status")) [
    | inl status ↦
        subst Returns (some-injective (rw (text_of, status) at e))
          (λ args m all. let (s, done) = status_text-returns h w facts S args m all in (_, done))
    | inr other ↦ elim (Bool-cases (same_text cmd "summary")) [
      | inl summary ↦
          subst Returns (some-injective (rw (text_of, other, summary) at e)) (λ args m all.
            let (lines, done, _) = summary_text_lem S h w facts args m all in (_, done))
      | inr missing ↦ absurd (no_text (rw (text_of, other, missing) at e))
    ]
  ]
    where
      no_text : Path (Option (List String → Monitor S → Outcome String)) none (some text) → ⊥
      no_text e = cc

  pub serve_text-returns :
      (cmd : String) (text : List String → Monitor S → Outcome String) (id : Option String)
      (m : Monitor S)
      → text_of S h w facts cmd ≡ some text
      → IsSetUp m.checks
      → (r : CmdResponse) × (serve_text S h w facts text id m ≡ returns r)
  unfolding serve_text
  serve_text-returns cmd text none m e all =
      let (s, done) = text_of-Returns cmd text e [] m all in
      (record { success = true; msg = s }, rw done refl)
  serve_text-returns cmd text (some id) m e all =
      let (s, done) = text_of-Returns cmd text e (id ∷ []) m all in
      (record { success = true; msg = s }, rw done refl)
