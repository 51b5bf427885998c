-- ===== src/Server/Client/Laws.antt =====
-- The client of monitor/client.go over the routes of monitor/server.go.
use gonit.Base.{
  List, [], ◌∷◌, String, ◌≡◌, refl, Bool, true, false, Option, none, some, returns, inl, inr, arith,
  Option-cases,
}
use gonit.Check.{Check}
use gonit.Database.Storer.{Storer}
use gonit.Entries.{Value}
use gonit.Monitor.Invariant.{IsWellFormed}
use gonit.Monitor.{set_all_flags, Monitor, set_flag}
use gonit.Registry.{find_check}
use gonit.Server.{
  joined, flag_service, serve_all, CmdResponse, response_of, Daemon, Service, service_of, serve_one,
  flag_cb,
}
use gonit.Server.Flags.{serve_all_flags_lem}
use gonit.Server.Client.{
  listed, Connection, Client, read_response, decoded_response, conclude, answered, check_operation,
  client_manager,
}

-- The errors of the client: none, or one with all the texts.
abbrev pub one_error : Option String → List String
one_error none = []
one_error (some why) = why ∷ []

module _ (S : Storer Value) (unique_id : Check → String) where
  flag_cb_lem :
      (b : Bool) (id : String) (d : Daemon S unique_id) (why : Option String) (m : Monitor S)
      → set_flag S b id d.monitor ≡ returns (why, m)
      → flag_cb S unique_id b id d ≡ returns (why, record d { monitor = m })
  unfolding set_flag flag_cb
  flag_cb_lem b id d why m ran = elim (Option-cases (find_check id d.monitor.checks)) [
    | inl missing ↦ ground (arith, missing, ran)
    | inr (c, there) ↦ ground (arith, there, ran)
  ]

module _ (S : Storer Value) (unique_id : Check → String) {B : Type 0} where
  -- The connection delivers a request to the route of its command, for one check or for all, and what is
  -- encoded there is decoded here.
  pub record Delivers (net : Connection B (Daemon S unique_id)) : Type 0 where
    pub plain : String → Bool  -- an id that stands in a path as it is
    pub encode : CmdResponse → B
    pub decode_encode : (r : CmdResponse) → net.decode (encode r) ≡ inr r
    pub routed :
        (cmd id : String) (s : Service S unique_id) (d d' : Daemon S unique_id) (r : CmdResponse)
        → plain id ≡ true
        → service_of S unique_id cmd ≡ some s
        → serve_one S unique_id s id d ≡ returns (r, d')
        → net.post cmd (some id) d ≡ (inr (200, encode r), d')
    pub routed_all :
        (cmd : String) (s : Service S unique_id) (d d' : Daemon S unique_id) (r : CmdResponse)
        → service_of S unique_id cmd ≡ some s
        → serve_all S unique_id s d ≡ returns (r, d')
        → net.post cmd none d ≡ (inr (200, encode r), d')

  -- What `check_operation` gives for a command with a route: the error of the route's callback.
  pub check_operation_lem :
      (net : Connection B (Daemon S unique_id)) (ok : Delivers net) (cmd id : String)
      (s : Service S unique_id) (c : Client (Daemon S unique_id)) (why : Option String)
      (d' : Daemon S unique_id)
      → ok.plain id ≡ true
      → service_of S unique_id cmd ≡ some s
      → s.cb id c.daemon ≡ returns (why, d')
      → ((check_operation net cmd (some id) c).0 ≡ why)
        × ((check_operation net cmd (some id) c).1.daemon ≡ d')
  unfolding check_operation answered conclude read_response decoded_response serve_one
  check_operation_lem net ok cmd id s c why d' fits route ran =
      let served =
        ok.routed cmd id s c.daemon d' (response_of why) fits route (ground (arith, ran)) in
      rw (served, ok.decode_encode (response_of why)) (end why)
    where
      end :
          (o : Option String)
          → ((conclude net c d' (decoded_response net (inr (response_of o)))).0 ≡ o)
            × ((conclude net c d' (decoded_response net (inr (response_of o)))).1.daemon ≡ d')
      end none = (refl, refl)
      end (some e) = (refl, refl)

  abbrev pub client_flag :
      Connection B (Daemon S unique_id)
      → Bool
      → String
      → Client (Daemon S unique_id)
      → Option String × Client (Daemon S unique_id)
  client_flag net true id c = (client_manager net).monitor id c
  client_flag net false id c = (client_manager net).unmonitor id c

  -- Over a connection that delivers, `Monitor` and `Unmonitor` of the client give what those of the
  -- monitor behind the server give: the same error or none, and the same monitor after it; the
  -- states of `doOnce` are as before.
  pub client_flag_lem :
      (net : Connection B (Daemon S unique_id)) (ok : Delivers net) (b : Bool) (id : String)
      (c : Client (Daemon S unique_id)) (why : Option String) (m : Monitor S)
      → ok.plain id ≡ true
      → set_flag S b id c.daemon.monitor ≡ returns (why, m)
      → ((client_flag net b id c).0 ≡ why)
        × ((client_flag net b id c).1.daemon ≡ record c.daemon { monitor = m })
  unfolding client_manager
  client_flag_lem net ok true id c why m fits ran =
      check_operation_lem net ok "monitor" id _ c why _ fits refl
        (flag_cb_lem S unique_id true id c.daemon why m ran)
  client_flag_lem net ok false id c why m fits ran =
      check_operation_lem net ok "unmonitor" id _ c why _ fits refl
        (flag_cb_lem S unique_id false id c.daemon why m ran)

  abbrev pub client_flag_all :
      Connection B (Daemon S unique_id)
      → Bool
      → Client (Daemon S unique_id)
      → List String × Client (Daemon S unique_id)
  client_flag_all net true c = (client_manager net).monitor_all c
  client_flag_all net false c = (client_manager net).unmonitor_all c

  check_all_lem :
      (net : Connection B (Daemon S unique_id)) (ok : Delivers net) (cmd : String)
      (s : Service S unique_id) (c : Client (Daemon S unique_id)) (why : Option String)
      (d' : Daemon S unique_id)
      → service_of S unique_id cmd ≡ some s
      → serve_all S unique_id s c.daemon ≡ returns (response_of why, d')
      → ((listed net (check_operation net cmd none c)).0 ≡ one_error why)
        × ((listed net (check_operation net cmd none c)).1.daemon ≡ d')
  unfolding check_operation answered conclude read_response decoded_response listed
  check_all_lem net ok cmd s c why d' route ran =
      let served = ok.routed_all cmd s c.daemon d' (response_of why) route ran in
      rw (served, ok.decode_encode (response_of why)) (end why)
    where
      end :
          (o : Option String)
          → ((listed net (conclude net c d' (decoded_response net (inr (response_of o))))).0
              ≡ one_error o)
            × ((listed net
                  (conclude net c d' (decoded_response net (inr (response_of o))))).1.daemon
                ≡ d')
      end none = (refl, refl)
      end (some e) = (refl, refl)

  -- Over a connection that delivers, `MonitorAll` and `UnmonitorAll` of the client leave a well-formed
  -- monitor behind the server as those of the monitor itself do; the client gives no error if they
  -- give none, and else one, with their texts, a line for each.
  pub client_flag_all_lem :
      (net : Connection B (Daemon S unique_id)) (ok : Delivers net) (b : Bool)
      (c : Client (Daemon S unique_id)) (errors : List String) (m : Monitor S)
      → IsWellFormed S c.daemon.monitor
      → set_all_flags S b c.daemon.monitor ≡ returns (errors, m)
      → ((client_flag_all net b c).0 ≡ one_error (joined errors))
        × ((client_flag_all net b c).1.daemon ≡ record c.daemon { monitor = m })
  unfolding client_manager
  client_flag_all_lem net ok true c errors m w ran =
      check_all_lem net ok "monitor" (flag_service S unique_id true) c (joined errors) _ refl
        (serve_all_flags_lem S unique_id true c.daemon errors m w ran)
  client_flag_all_lem net ok false c errors m w ran =
      check_all_lem net ok "unmonitor" (flag_service S unique_id false) c (joined errors) _ refl
        (serve_all_flags_lem S unique_id false c.daemon errors m w ran)
