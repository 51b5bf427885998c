-- ===== src/Server/Texts/Laws.antt =====
-- The texts of the client of monitor/client.go over the routes of monitor/server.go.
use Prim.Native.String.{◌++◌ as ◌+++◌}
use gonit.Base.{
  All, Bool, String, ◌≡◌, ◌≤◌, refl, true, none, some, List, [], ◌∷◌, Outcome, returns, inr, length,
  arith,
}
use gonit.Check.{Check, Host}
use gonit.Database.Storer.{Storer}
use gonit.Entries.{Value}
use gonit.Monitor.Summary.{
  Printer, Facts, summary_text, summary_text_lem, round_duration, since, Shows,
}
use gonit.Registry.{IsSetUp, find_checks}
use gonit.Monitor.{Monitor}
use gonit.Server.Client.{Client, Connection, read_response}
use gonit.Server.Texts.{text_of, serve_text, Getter, client_text}
use gonit.Server.{CmdResponse, Daemon}

module _ (S : Storer Value) (unique_id : Check → String) (h : Host) (w : Printer) (facts : Facts)
    {B : Type 0} where
  -- The connection delivers a request to the route of its text, with the id that was escaped, and what
  -- is encoded there is decoded here.
  pub record DeliversTexts (net : Connection B (Daemon S unique_id))
      (g : Getter B (Daemon S unique_id)) : Type 0 where
    pub fits : String → Bool  -- an id that is one part of a path when it is escaped
    pub encode : CmdResponse → B
    pub decode_encode : (r : CmdResponse) → net.decode (encode r) ≡ inr r
    pub routed :
        (cmd : String) (text : List String → Monitor S → Outcome String) (d : Daemon S unique_id)
        (r : CmdResponse)
        → text_of S h w facts cmd ≡ some text
        → serve_text S h w facts text none d.monitor ≡ returns r
        → g.get cmd none d ≡ inr (200, encode r)
    pub routed_one :
        (cmd id : String) (text : List String → Monitor S → Outcome String) (d : Daemon S unique_id)
        (r : CmdResponse)
        → fits id ≡ true
        → text_of S h w facts cmd ≡ some text
        → serve_text S h w facts text (some id) d.monitor ≡ returns r
        → g.get cmd (some (g.path_escape id)) d ≡ inr (200, encode r)

  -- What the client makes of the text that the route gives.
  client_text_lem :
      (net : Connection B (Daemon S unique_id)) (g : Getter B (Daemon S unique_id))
      (ok : DeliversTexts net g) (cmd : String) (text : List String → Monitor S → Outcome String)
      (args : List String) (c : Client (Daemon S unique_id)) (s : String)
      → text_of S h w facts cmd ≡ some text
      → length args ≤ 1
      → All (λ id. ok.fits id ≡ true) args
      → text args c.daemon.monitor ≡ returns s
      → client_text net g cmd args c ≡ (s, c)
  unfolding client_text serve_text read_response
  client_text_lem net g ok cmd text [] c s route few fit done =
      let r : CmdResponse = record { success = true; msg = s } in
      let reply = ok.routed cmd text c.daemon r route (rw done refl) in
      rw (reply, ok.decode_encode r) refl
  client_text_lem net g ok cmd text (id ∷ []) c s route few fit done =
      let r : CmdResponse = record { success = true; msg = s } in
      let reply = ok.routed_one cmd id text c.daemon r fit.0 route (rw done refl) in
      rw (reply, ok.decode_encode r) refl
  client_text_lem net g ok cmd text (id ∷ j ∷ ids) c s route few fit done = absurd (omega arith)

  -- Over a connection that delivers requests to the routes, to a daemon whose checks are set up, for
  -- no id or one that fits into a path: `SummaryText` of the client gives the text of the
  -- monitor, the uptime and a line for each check that is asked for, with what its flag says, or
  -- for a monitored process whether its process runs. The client and the daemon are as before.
  pub client_summary_lem :
      (net : Connection B (Daemon S unique_id)) (g : Getter B (Daemon S unique_id))
      (ok : DeliversTexts net g) (args : List String) (c : Client (Daemon S unique_id))
      → length args ≤ 1
      → All (λ id. ok.fits id ≡ true) args
      → IsSetUp c.daemon.monitor.checks
      → (s : String) × (lines : String) × (summary_text h w facts S args c.daemon.monitor
          ≡ returns s)
        × (client_text net g "summary" args c ≡ (s, c))
        × (s
            ≡ "Uptime "
              +++ w.show_duration (round_duration h w facts (since h facts.start_time))
              +++ "\n\n"
              +++ lines)
        × Shows h w facts (find_checks c.daemon.monitor.checks args) lines
  client_summary_lem net g ok args c few fit all =
      let (lines, done, shows) = summary_text_lem S h w facts args c.daemon.monitor all in
      (
        _,
        lines,
        done,
        client_text_lem net g ok "summary" (summary_text h w facts S) args c _ refl few fit done,
        refl,
        shows,
      )
