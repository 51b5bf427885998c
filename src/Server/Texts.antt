-- ===== src/Server/Texts.antt =====
-- The routes of monitor/server.go for the texts of status and summary, and `StatusText` and
-- `SummaryText` of monitor/client.go.
pub mod Laws
pub mod Answers
use Prim.Native.String.{◌++◌ as ◌+++◌}
use gonit.Base.{
  ℕ, String, Bool, true, Option, none, some, List, [], ◌∷◌, Outcome, returns, ◌>>=◌, if◌then◌else◌,
  same_text, ◌⊎◌, inl, inr,
}
use gonit.Check.{Check, Host}
use gonit.Database.Storer.{Storer}
use gonit.Entries.{Value}
use gonit.Monitor.Summary.{Printer, Facts, status_text, summary_text}
use gonit.Monitor.{Monitor}
use gonit.Server.Client.{Client, Connection, read_response}
use gonit.Server.{CmdResponse, Daemon}

module _ (S : Storer Value) (h : Host) (w : Printer) (facts : Facts) where
  -- The texts that the server has routes for.
  abbrev pub text_of : String → Option (List String → Monitor S → Outcome String)
  text_of cmd =
      if same_text cmd "status"
      then some (status_text h w facts S)
      else if same_text cmd "summary"
      then some (summary_text h w facts S)
      else none

  -- `GET /<cmd>` and `GET /<cmd>/:service`
  unfoldable pub serve_text :
      (List String → Monitor S → Outcome String) → Option String → Monitor S → Outcome CmdResponse
  serve_text text none m = do s ← text [] m; returns (record { success = true; msg = s })
  serve_text text (some id) m = do
    s ← text (id ∷ []) m
    returns (record { success = true; msg = s })

-- The connection's part: `GET` of a text for a part of a path, or for all, which changes nothing, and
-- `url.PathEscape`.
pub record Getter (B M : Type 0) : Type 0 where
  pub get : String → Option String → M → String ⊎ (ℕ × B)
  pub path_escape : String → String

module _ {B M : Type 0} (net : Connection B M) (g : Getter B M) where
  -- The text of the reply. An error is kept, and the text is empty.
  concluded : Client M → String ⊎ String → String × Client M
  concluded c (inl why) = ("", record c { error = some why })
  concluded c (inr msg) = (msg, c)

  got : String → Client M → String ⊎ (ℕ × B) → String × Client M
  unfolding concluded
  got cmd c (inl why) = ("", record c { error = some ("Error getting " +++ cmd +++ " " +++ why) })
  got cmd c (inr (code, body)) = concluded c (read_response net code body)

  -- The first argument, escaped; the client leaves out the others.
  abbrev path_of : List String → Option String
  path_of [] = none
  path_of (id ∷ ids) = some (g.path_escape id)

  -- `StatusText` and `SummaryText` of the client, for `status` and `summary`.
  unfoldable pub client_text : String → List String → Client M → String × Client M
  unfolding got concluded
  client_text cmd args c = got cmd c (g.get cmd (path_of args) c.daemon)
