-- ===== src/Config.antt =====
-- go-daemon/pkg/config/config.go: the configuration of the daemon, from its flags and the host.
-- What `flag.Parse` read is the record `Flags`, which `default_flags` gives where no flag is set.
pub mod Paths
pub mod Csv
mod Tests
use ripple.Prelude.{
  ℕ, Text, bytes, ℤ, pos, Option, none, some, List, [], ◌++◌, ◌∷◌, Bool, true, false, is_empty,
  if◌then◌else◌,
}
use ripple.Config.Paths.{path_join}
use ripple.Config.Csv.{split_csv}

abbrev pub default_port : ℤ
default_port = pos 0

abbrev pub default_ws_port : ℤ
default_ws_port = pos 9876

abbrev pub default_rendezvous : Text
default_rendezvous = bytes "ripple-chat-v1"

abbrev pub default_data_dir : Text
default_data_dir = bytes ".ripple"

-- `Config`
pub record Config : Type 0 where
  pub listen_port : ℤ
  pub ws_port : ℤ
  pub rendezvous : Text
  pub relay_peers : List Text
  pub data_dir : Text
  pub identity_path : Text
  pub nickname : Text
  pub db_path : Text
  pub debug : Bool
  pub no_mdns : Bool
  pub export_seed : Bool
  pub import_seed : Text
  pub routing_mode : Text
  pub spray_budget : ℤ

-- The values of the flags.
pub record Flags : Type 0 where
  pub port : ℤ
  pub wsport : ℤ
  pub rdv : Text
  pub nick : Text
  pub db : Text
  pub debug : Bool
  pub nomdns : Bool
  pub export_seed : Bool
  pub import_seed : Text
  pub routing : Text
  pub spray_budget : ℤ
  pub data_dir : Text
  pub peers : Text

abbrev pub default_flags : Flags
default_flags = record {
  port = default_port;
  wsport = default_ws_port;
  rdv = default_rendezvous;
  nick = [];
  db = [];
  debug = false;
  nomdns = false;
  export_seed = false;
  import_seed = [];
  routing = bytes "epidemic";
  spray_budget = pos 4;
  data_dir = [];
  peers = [];
}

-- The home directory, `none` where there is none, and the host's name, empty where it has none.
pub record Host : Type 0 where
  pub home : Option Text
  pub hostname : Text

unfoldable pub resolve_data_dir : Host → Text → Text
resolve_data_dir host dir =
    let home_dir : Text = elim host.home [
      | none ↦ default_data_dir
      | some home ↦ path_join home default_data_dir
    ] in
    if is_empty dir then home_dir else dir

-- `Parse`, from what the flags hold.
unfoldable pub parse : Host → Flags → Config
parse host flags =
    let dir = resolve_data_dir host flags.data_dir in
    record {
      listen_port = flags.port;
      ws_port = flags.wsport;
      rendezvous = flags.rdv;
      relay_peers = if is_empty flags.peers then [] else split_csv flags.peers;
      data_dir = dir;
      identity_path = path_join dir (bytes "identity.pem");
      nickname = if is_empty flags.nick then host.hostname else flags.nick;
      db_path = if is_empty flags.db then path_join dir (bytes "ripple.db") else flags.db;
      debug = flags.debug;
      no_mdns = flags.nomdns;
      export_seed = flags.export_seed;
      import_seed = flags.import_seed;
      routing_mode = flags.routing;
      spray_budget = flags.spray_budget;
    }
