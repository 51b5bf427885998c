-- ===== src/Daemon/Socket.antt =====
-- The listener of the HTTP interface: `Start` and `Stop` of monitor/server.go, and `StartServer`,
-- `HTTPServerSupported`, `Terminate` and `cleanup` of monitor/monitor.go.
use Prim.Native.String.{◌++◌ as ◌+++◌}
use gonit.Base.{
  String, ◌≡◌, refl, Bool, true, false, not, Option, none, some, if◌then◌else◌, same_text, is_some,
  arith, Bool-cases, inl, inr,
}

-- What the system answers to unlink(2).
pub data Unlinked : Type 0 where
  removed : Unlinked
  missing : Unlinked
  failed : String → Unlinked

-- The answers of the system, each an error or none.
pub record System : Type 0 where
  pub unlink : String → Unlinked
  pub listen : String → Option String
  pub chmod : String → Option String
  pub close : Option String

-- `monitorServer`: whether its listener is set.
pub record MonitorServer : Type 0 where
  pub socket_file : String
  pub listening : Bool

abbrev pub http_server_supported : String → Bool
http_server_supported socket = not (same_text socket "")

module _ (sys : System) where
  listen_on : MonitorServer → Option String × MonitorServer
  listen_on ms = elim (sys.listen ms.socket_file) [
    | some why ↦ (some why, ms)
    | none ↦ elim (sys.chmod ms.socket_file) [
      | some why ↦ (some why, ms)
      | none ↦ (none, record ms { listening = true })
    ]
  ]

  unfoldable pub start : MonitorServer → Option String × MonitorServer
  unfolding listen_on
  start ms = elim (sys.unlink ms.socket_file) [
    | removed ↦ listen_on ms
    | missing ↦ listen_on ms
    | failed why ↦ (some why, ms)
  ]

  unfoldable pub stop : MonitorServer → Option String
  stop ms = if not ms.listening then some "Refused to close a nil listener" else sys.close

  -- The server of a monitor with a socket, and the error. The server stays also if it has not started.
  started : Option String × MonitorServer → Option String × Option MonitorServer
  started (none, ms) = (none, some ms)
  started (some why, ms) = (some ("Error listening to socket " +++ why), some ms)

  unfoldable pub start_server : String → Option MonitorServer → Option String × Option MonitorServer
  unfolding started
  start_server socket server =
      if http_server_supported socket
      then started (start (record { socket_file = socket; listening = false }))
      else (some "Don't know how to start the HTTP server (missing socket)", server)

  unfoldable pub cleanup : Option MonitorServer → Option String × Option MonitorServer
  cleanup none = (none, none)
  cleanup (some ms) = elim (stop ms) [
    | some why ↦ (some ("Error tearing down HTTP server: " +++ why), some ms)
    | none ↦ (none, none)
  ]

  -- `Terminate` only logs besides.
  unfoldable pub terminate : Option MonitorServer → Option String × Option MonitorServer
  unfolding cleanup
  terminate server = cleanup server

  start-listening :
      (ms : MonitorServer)
      → ms.listening ≡ false
      → (start ms).1.listening ≡ not (is_some (start ms).0)
  unfolding start listen_on
  start-listening ms off = ground (arith, off)

  -- How `StartServer` and `Terminate` end, one after the other.
  abbrev pub Ends : String → Option String × Option MonitorServer → Type 0
  Ends socket r =
      (is_some (terminate r.1).0 ≡ (if http_server_supported socket then is_some r.0 else false))
      × ((terminate r.1).1 ≡ (if is_some (terminate r.1).0 then r.1 else none))

  started-Ends :
      (socket : String) (r : Option String × MonitorServer)
      → sys.close ≡ none
      → http_server_supported socket ≡ true
      → r.1.listening ≡ not (is_some r.0)
      → Ends socket (started r)
  unfolding started terminate cleanup stop
  started-Ends socket (none, ms) fine named on = rw (named, on, fine) (refl, refl)
  started-Ends socket (some why, ms) fine named off = rw (named, off) (refl, refl)

  -- On a system that closes listeners without an error, and with no server before: `Terminate` after
  -- `StartServer` gives an error exactly if a socket is named and the server has not started; without
  -- an error no server is left, and with one it is left as it was.
  pub terminate-start_server :
      (socket : String) → sys.close ≡ none → Ends socket (start_server socket none)
  unfolding start_server terminate cleanup
  terminate-start_server socket fine =
      let ms : MonitorServer = record { socket_file = socket; listening = false } in
      elim (Bool-cases (http_server_supported socket)) [
        | inr unnamed ↦ rw (start_server, unnamed) (refl, refl)
        | inl named ↦
            let ends = started-Ends socket (start ms) fine named (start-listening ms refl) in
            rw (start_server, named) (rw named at ends)
      ]
