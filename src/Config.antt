-- ===== src/Config.antt =====
-- config/config.go: the settings that Validate reads, the defaults, and Validate. `parse_url` is url.Parse,
-- reduced to the scheme; reading the YAML file is not modelled. A duration is an int64 of nanoseconds.
pub mod Valid
pub mod Suppliers
use Prim.Native.String.{String}
use pocket_settlement_monito.Prelude.{
  ℕ, Bool, true, false, ◌&&◌, Option, none, some, List, [], ◌∷◌, if◌then◌else◌, any, length, ◌==◌,
}
use pocket_settlement_monito.Prelude.Eq.{◌=?◌, string_eq}
use pocket_settlement_monito.Prelude.Words.{Int64, slt, sle}

pub record CometBftConfig : Type 0 where
  pub rpc_url : String
  pub reconnect_base_delay : Int64
  pub reconnect_max_delay : Int64
  pub heartbeat_timeout : Int64

pub record SuppliersConfig : Type 0 where
  pub keys_file : String
  pub addresses : List String

pub record DatabaseConfig : Type 0 where
  pub path : String
  pub wal_mode : Bool
  pub retention : Int64

pub record MetricsConfig : Type 0 where
  pub enabled : Bool
  pub addr : String

pub record Config : Type 0 where
  pub comet_bft : CometBftConfig
  pub suppliers : SuppliersConfig
  pub database : DatabaseConfig
  pub metrics : MetricsConfig

abbrev pub default_config : Config
default_config = record {
  comet_bft = record {
    rpc_url = "tcp://localhost:26657";
    reconnect_base_delay = 1000000000;
    reconnect_max_delay = 30000000000;
    heartbeat_timeout = 900000000000;
  };
  suppliers = record { keys_file = ""; addresses = [] };
  database = record {
    path = "./settlement-monitor.db";
    wal_mode = true;
    retention = 2592000000000000;
  };
  metrics = record { enabled = true; addr = ":9090" };
}

pub data ConfigError : Type 0 where
  rpc_url_required : ConfigError
  base_delay_positive : ConfigError
  max_delay_positive : ConfigError
  path_required : ConfigError
  addr_required : ConfigError
  delays_ordered : ConfigError
  heartbeat_positive : ConfigError
  rpc_url_scheme : ConfigError
  retention_non_negative : ConfigError

-- The errors whose condition holds, in the order of the tests.
unfoldable pub failures : List (Bool × ConfigError) → List ConfigError
failures [] = []
failures ((failed, e) ∷ rest) = let errs = failures rest in if failed then e ∷ errs else errs

abbrev pub not : Bool → Bool
not b = if b then false else true

-- `parseErr != nil || !validSchemes[u.Scheme]`
abbrev pub bad_scheme : Option String → Bool
bad_scheme none = true
bad_scheme (some scheme) = not (any (λ s. s =? scheme) ("tcp" ∷ "http" ∷ "https" ∷ []))

module _ (parse_url : String → Option String) where
  abbrev pub tests : Config → List (Bool × ConfigError)
  tests c =
      (c.comet_bft.rpc_url =? "", rpc_url_required)
      ∷ (sle c.comet_bft.reconnect_base_delay 0, base_delay_positive)
      ∷ (sle c.comet_bft.reconnect_max_delay 0, max_delay_positive)
      ∷ (c.database.path =? "", path_required)
      ∷ (c.metrics.enabled && c.metrics.addr =? "", addr_required)
      ∷ (slt c.comet_bft.reconnect_max_delay c.comet_bft.reconnect_base_delay, delays_ordered)
      ∷ (sle c.comet_bft.heartbeat_timeout 0, heartbeat_positive)
      ∷ (
        not (c.comet_bft.rpc_url =? "") && bad_scheme (parse_url c.comet_bft.rpc_url),
        rpc_url_scheme,
      )
      ∷ (slt c.database.retention 0, retention_non_negative)
      ∷ []

  -- No error is the empty list.
  unfoldable pub validate : Config → List ConfigError
  validate c = failures (tests c)

abbrev pub is_monitor_all : SuppliersConfig → Bool
is_monitor_all c = c.keys_file =? "" && length c.addresses == 0
