-- ===== src/Config.antt =====
-- internal/config/config.go: the configuration records and how they are loaded: the
-- content of the file is an argument, `none` where it cannot be read, and so are the YAML and the
-- base64 decoder.
use aldea.Prelude.{
  ℕ, Option, List, ◌>>=◌, ◌>>◌, or_fail, Bool, ◌||◌, String, Result, ok, err, if◌then◌else◌,
}
use aldea.Prelude.Int.{ℤ}
use aldea.Prelude.Text.{str_eq}

pub data ConfigError : Type 0 where
  invalid_config : ConfigError
  read_failed : ConfigError
  parse_failed : ConfigError
  bad_salt : ConfigError

pub record NodeConfig : Type 0 where
  pub node_id : String
  pub listen_addr : String
  pub data_dir : String
  pub storage_allocated : ℤ
  pub network_key : String
  pub tracker_addr : String

pub record TrackerConfig : Type 0 where
  pub listen_addr : String
  pub db_path : String
  pub network_key : String

pub record ClientConfig : Type 0 where
  pub tracker_addr : String
  pub network_key : String
  pub salt : String

abbrev is_empty : String → Bool
is_empty s = str_eq s ""

unfoldable pub validate_node : NodeConfig → Result ConfigError (Unit {0})
validate_node c =
    if is_empty c.node_id || is_empty c.listen_addr || is_empty c.data_dir || is_empty c.network_key
    then err invalid_config
    else ok tt

unfoldable pub validate_tracker : TrackerConfig → Result ConfigError (Unit {0})
validate_tracker c =
    if is_empty c.listen_addr || is_empty c.db_path || is_empty c.network_key
    then err invalid_config
    else ok tt

unfoldable pub validate_client : ClientConfig → Result ConfigError (Unit {0})
validate_client c =
    if is_empty c.tracker_addr || is_empty c.network_key || is_empty c.salt
    then err invalid_config
    else ok tt

-- `DecodedSalt`, with `base64.StdEncoding.DecodeString` as its first argument.
unfoldable pub decoded_salt :
    (String → Option (List ℕ)) → ClientConfig → Result ConfigError (List ℕ)
decoded_salt decode_string c = or_fail (decode_string c.salt) bad_salt

module _ {D : Type 0} where
  unfoldable pub load_node_config :
      (D → Option NodeConfig) → Option D → Result ConfigError NodeConfig
  load_node_config unmarshal file = do
    raw ← or_fail file read_failed
    cfg ← or_fail (unmarshal raw) parse_failed
    validate_node cfg
    ok cfg

  unfoldable pub load_tracker_config :
      (D → Option TrackerConfig) → Option D → Result ConfigError TrackerConfig
  load_tracker_config unmarshal file = do
    raw ← or_fail file read_failed
    cfg ← or_fail (unmarshal raw) parse_failed
    validate_tracker cfg
    ok cfg

  unfoldable pub load_client_config :
      (D → Option ClientConfig) → Option D → Result ConfigError ClientConfig
  load_client_config unmarshal file = do
    raw ← or_fail file read_failed
    cfg ← or_fail (unmarshal raw) parse_failed
    validate_client cfg
    ok cfg
