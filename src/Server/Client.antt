-- ===== src/Server/Client.antt =====
-- The client of monitor/client.go: requests over a connection, which is a parameter.
pub mod Laws
use Prim.Native.String.{◌++◌ as ◌+++◌}
use gonit.Base.{
  ℕ, String, Bool, true, false, not, Option, none, some, List, [], ◌∷◌, if◌then◌else◌, ◌⊎◌, inl,
  inr, ◌==◌,
}
use gonit.Cmd.{ChecksManager}
use gonit.Server.{CmdResponse}

-- A connection to a daemon in a state `M`: `POST` of an operation for a check or for all, with the
-- error, or the status code and the body of the reply; and the decoding of a body from JSON.
pub record Connection (B M : Type 0) : Type 0 where
  pub post : String → Option String → M → (String ⊎ (ℕ × B)) × M
  pub decode : B → String ⊎ CmdResponse

-- `Client`: the last error, with the daemon at the other end.
pub record Client (M : Type 0) : Type 0 where
  pub error : Option String
  pub daemon : M

module _ {B M : Type 0} (net : Connection B M) where
  -- `readResponse`: the error, or the message.
  decoded_response : String ⊎ CmdResponse → String ⊎ String
  decoded_response (inl why) = inl why
  decoded_response (inr r) = if not r.success then inl r.msg else inr r.msg

  unfoldable pub read_response : ℕ → B → String ⊎ String
  unfolding decoded_response
  read_response code body =
      if not (code == 200)
      then inl "Got invalid response from server"
      else decoded_response (net.decode body)

  -- The error of the text of a check's id, which is empty for all checks.
  abbrev pub id_text : Option String → String
  id_text none = ""
  id_text (some id) = id

  -- What `checkOperation` makes of the reply: an error is kept and returned.
  conclude : Client M → M → String ⊎ String → Option String × Client M
  conclude c m (inl why) = (some why, record { error = some why; daemon = m })
  conclude c m (inr msg) = (none, record c { daemon = m })

  answered : Client M → String → Option String → (String ⊎ (ℕ × B)) × M → Option String × Client M
  answered c op id (inl why, m) =
      conclude c m (inl ("Error executing " +++ op +++ " " +++ id_text id +++ ": " +++ why))
  answered c op id (inr (code, body), m) = conclude c m (read_response code body)

  unfoldable pub check_operation : String → Option String → Client M → Option String × Client M
  unfolding answered conclude read_response
  check_operation op id c = answered c op id (net.post op id c.daemon)

  -- The operations on all checks give one error at most.
  listed : Option String × Client M → List String × Client M
  listed (none, c) = ([], c)
  listed (some why, c) = (why ∷ [], c)

  unfoldable pub client_manager : ChecksManager (Client M)
  unfolding listed
  client_manager = record {
    start = λ id. check_operation "start" (some id);
    stop = λ id. check_operation "stop" (some id);
    restart = λ id. check_operation "restart" (some id);
    monitor = λ id. check_operation "monitor" (some id);
    unmonitor = λ id. check_operation "unmonitor" (some id);
    start_all = λ c. listed (check_operation "start" none c);
    stop_all = λ c. listed (check_operation "stop" none c);
    restart_all = λ c. listed (check_operation "restart" none c);
    monitor_all = λ c. listed (check_operation "monitor" none c);
    unmonitor_all = λ c. listed (check_operation "unmonitor" none c);
  }
