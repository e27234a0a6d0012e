-- ===== src/Config.antt =====
-- internal/config/config.go: the configuration file over the defaults, and its validation.
pub mod Valid
use lockr.Base.{ℕ, ◌*◌, ◌^◌, [], ◌∷◌, Bytes, codes, ◌==◌, if◌then◌else◌}
use lockr.Base.Int.{Int64}
use lockr.Result.{
  Error, Result, ok, err, read_config, parse_config, invalid_config, addr_required,
  data_dir_required, master_key_path_required,
}

pub record ServerConfig : Type 0 where
  pub addr : Bytes
  pub tls_cert : Bytes
  pub tls_key : Bytes
  pub tls_ca : Bytes

pub record StorageConfig : Type 0 where
  pub data_dir : Bytes
  pub master_key_path : Bytes

pub record AuditConfig : Type 0 where
  pub log_file : Bytes

pub record PolicyConfig : Type 0 where
  pub dir : Bytes

-- Durations, in nanoseconds.
pub record SessionConfig : Type 0 where
  pub ttl : Int64
  pub max_ttl : Int64

pub record Config : Type 0 where
  pub server : ServerConfig
  pub storage : StorageConfig
  pub audit : AuditConfig
  pub policy : PolicyConfig
  pub session : SessionConfig
  pub log_level : Bytes

abbrev pub hour : ℕ
hour = 3600 * 10 ^ 9

unfoldable pub defaults : Config
defaults = record {
  server = record {
    addr = codes "0.0.0.0:8300";
    tls_cert = codes "/etc/lockr/tls/server.crt";
    tls_key = codes "/etc/lockr/tls/server.key";
    tls_ca = codes "/etc/lockr/tls/ca.crt";
  };
  storage = record {
    data_dir = codes "/var/lib/lockr/data";
    master_key_path = codes "/var/lib/lockr/master.key.enc";
  };
  audit = record { log_file = codes "/var/lib/lockr/audit.log" };
  policy = record { dir = codes "/etc/lockr/policies" };
  session = record { ttl = 1 * hour; max_ttl = 24 * hour };
  log_level = codes "info";
}

unfoldable pub validate : Config → Result (Unit {0})
validate c =
    if c.server.addr == []
    then err addr_required
    else if c.storage.data_dir == []
    then err data_dir_required
    else if c.storage.master_key_path == []
    then err master_key_path_required
    else ok tt

-- os.ReadFile, and yaml.Unmarshal of a text onto a configuration: what the text does not name stays.
pub record ConfigFiles : Type 0 where
  pub read_file : Bytes → Result Bytes
  pub unmarshal : Bytes → Config → Result Config

checked : Config → Result (Unit {0}) → Result Config
checked cfg (ok u) = ok cfg
checked cfg (err e) = err (invalid_config e)

parsed : Bytes → Result Config → Result Config
unfolding checked
parsed path (err e) = err (parse_config path e)
parsed path (ok cfg) = checked cfg (validate cfg)

read : ConfigFiles → Bytes → Result Bytes → Result Config
unfolding parsed
read fs path (err e) = err (read_config path e)
read fs path (ok text) = parsed path (fs.unmarshal text defaults)

unfoldable pub load : ConfigFiles → Bytes → Result Config
unfolding read
load fs path = read fs path (fs.read_file path)
