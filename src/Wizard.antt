-- ===== src/Wizard.antt =====
-- internal/config/init.go, and the command of cmd/aldea/init.go: new configurations, written as YAML.
-- The random source, the encodings and the file system are parameters; the state `W` is all that
-- they act on.
pub mod Written
mod Tests
use aldea.Prelude.{
  ℕ, ◌*◌, ◌≡◌, Bool, true, false, String, Option, none, some, List, [], ◌∷◌, Result, ok, err,
  if◌then◌else◌,
}
use aldea.Prelude.Int.{ℤ, pos, leb_ℤ, mul64}
use aldea.Prelude.Text.{str_eq, hex_text, joined}
use aldea.Prelude.Eff.{Eff, ◌>>=◌, ◌>>◌, pure, fail}
use aldea.Client.{Bytes}
use aldea.Client.Upload.{bytes_or_zero}
use aldea.Config.{NodeConfig, TrackerConfig, ClientConfig}

pub data WizardError : Type 0 where
  mkdir_failed marshal_failed write_failed invalid_role : WizardError

-- `rand.Read`, `base64.StdEncoding`, `yaml.Marshal`, `os.MkdirAll` of a path's directory, and
-- `os.WriteFile`.
pub record Machine (W D : Type 0) : Type 0 where
  pub random : ℕ → W → W × Option Bytes
  pub base64 : Bytes → String
  pub node_yaml : NodeConfig → Option D
  pub tracker_yaml : TrackerConfig → Option D
  pub client_yaml : ClientConfig → Option D
  pub mkdir_for : String → W → W × Bool
  pub write_file : String → D → W → W × Bool

-- The value of a parameter, or its default.
abbrev pub or_default : String → String → String
or_default given default = if str_eq given "" then default else given

module _ {W D : Type 0} (m : Machine W D) where
  unfoldable pub generate_random_key : ℕ → Eff W WizardError String
  generate_random_key n w = let (w', b) = m.random n w in (w', ok (hex_text (bytes_or_zero n b)))

  unfoldable pub generate_random_salt : ℕ → Eff W WizardError String
  generate_random_salt n w = let (w', b) = m.random n w in (w', ok (m.base64 (bytes_or_zero n b)))

  -- What is given, or what is generated where nothing is.
  abbrev pub or_generated : String → Eff W WizardError String → Eff W WizardError String
  or_generated given make = if str_eq given "" then make else pure given

  abbrev pub succeed : WizardError → W × Bool → W × Result WizardError (Unit {0})
  succeed e (w, true) = (w, ok tt)
  succeed e (w, false) = (w, err e)

  -- The document is made after the directory.
  unfoldable pub save_yaml : String → Option D → Eff W WizardError (Unit {0})
  save_yaml path none = (λ w. succeed mkdir_failed (m.mkdir_for path w)) >> fail marshal_failed
  save_yaml path (some doc) =
      (λ w. succeed mkdir_failed (m.mkdir_for path w))
      >> (λ w. succeed write_failed (m.write_file path doc w))

  unfoldable pub init_node_config :
      String → String → String → String → String → ℤ → String → Eff W WizardError NodeConfig
  init_node_config path node_id listen_addr data_dir tracker_addr alloc_bytes network_key = do
    key ← or_generated network_key (generate_random_key 16)
    id ← or_generated node_id (generate_random_key 4 >>= λ k. pure (joined ("node-" ∷ k ∷ [])))
    let cfg : NodeConfig = record {
      node_id = id;
      listen_addr = or_default listen_addr "0.0.0.0:9001";
      data_dir = or_default data_dir "./data";
      storage_allocated =
          if leb_ℤ alloc_bytes (pos 0) then pos (10 * 1024 * 1024 * 1024) else alloc_bytes;
      network_key = key;
      tracker_addr = tracker_addr;
    }
    save_yaml path (m.node_yaml cfg)
    pure cfg

  unfoldable pub init_tracker_config :
      String → String → String → String → Eff W WizardError TrackerConfig
  init_tracker_config path listen_addr db_path network_key = do
    key ← or_generated network_key (generate_random_key 16)
    let cfg : TrackerConfig = record {
      listen_addr = or_default listen_addr "0.0.0.0:9090";
      db_path = or_default db_path "./tracker.db";
      network_key = key;
    }
    save_yaml path (m.tracker_yaml cfg)
    pure cfg

  unfoldable pub init_client_config :
      String → String → String → String → Eff W WizardError ClientConfig
  init_client_config path tracker_addr network_key salt = do
    key ← or_generated network_key (generate_random_key 16)
    grains ← or_generated salt (generate_random_salt 16)
    let cfg : ClientConfig = record {
      tracker_addr = or_default tracker_addr "127.0.0.1:9090";
      network_key = key;
      salt = grains;
    }
    save_yaml path (m.client_yaml cfg)
    pure cfg

  -- The flags of `aldea init`, and the path of the client's configuration.
  pub record InitFlags : Type 0 where
    pub role : String
    pub tracker_addr : String
    pub network_key : String
    pub listen_addr : String
    pub data_dir : String
    pub alloc_gb : ℤ
    pub out_file : String
    pub cfg_path : String

  unfoldable pub run_init : InitFlags → Eff W WizardError (Unit {0})
  run_init f =
      if str_eq f.role "node"
      then (init_node_config (or_default f.out_file "node.yaml") "" f.listen_addr f.data_dir
            f.tracker_addr (mul64 (mul64 (mul64 f.alloc_gb (pos 1024)) (pos 1024)) (pos 1024))
            f.network_key
          >> pure tt)
      else if str_eq f.role "tracker"
      then (init_tracker_config (or_default f.out_file "tracker.yaml") f.listen_addr "./tracker.db"
            f.network_key
          >> pure tt)
      else if str_eq f.role "client"
      then (init_client_config (or_default f.out_file f.cfg_path) f.tracker_addr f.network_key ""
          >> pure tt)
      else fail invalid_role
