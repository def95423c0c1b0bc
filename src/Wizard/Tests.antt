-- ===== src/Wizard/Tests.antt =====
-- A run and an instance of the theorem on internal/config/init.go: the documents are the configurations.
use aldea.Prelude.{
  ℕ, ◌≡◌, refl, ap, true, some, none, ok, replicate, length-replicate, length, ◌∙◌, arith,
}
use aldea.Prelude.Int.{pos}
use aldea.Prelude.Text.{hex_text}
use aldea.Client.{Bytes}
use aldea.Config.{NodeConfig, load_node_config}
use aldea.Wizard.{Machine, init_node_config, generate_random_key, save_yaml}
use aldea.Wizard.Written.{load-init_node_config}

abbrev machine : Machine ℕ NodeConfig
machine = record {
  random = λ n w. (w, some (replicate n 171));
  base64 = λ b. "q6s=";
  node_yaml = λ c. some c;
  tracker_yaml = λ c. none;
  client_yaml = λ c. none;
  mkdir_for = λ path w. (w, true);
  write_file = λ path doc w. (w, true);
}

reads : (n w : ℕ) (b : Bytes) → (machine.random n w).1 ≡ some b → length b ≡ n
reads n w b e =
    let same : b ≡ replicate n 171 = ground (arith, e) in ap length same ∙ length-replicate n 171

abbrev made : NodeConfig
made = record {
  node_id = "node-abababab";
  listen_addr = "0.0.0.0:9001";
  data_dir = "/srv";
  storage_allocated = pos 10737418240;
  network_key = "abababababababababababababababab";
  tracker_addr = "t:1";
}

made_run : init_node_config machine "node.yaml" "" "" "/srv" "t:1" (pos 0) "" 0 ≡ (0, ok made)
unfolding init_node_config generate_random_key save_yaml hex_text
made_run = refl

same_config : (c d : NodeConfig) → some c ≡ some d → some d ≡ some c
same_config c d e = ground (arith, e)

load-init_node_config_example :
    (doc : NodeConfig) × (v : ℕ) × (machine.write_file "node.yaml" doc v ≡ (0, true))
    × (load_node_config (λ d. some d) (some doc) ≡ ok made)
load-init_node_config_example =
    load-init_node_config machine reads (λ d. some d) "node.yaml" "" "" "/srv" "t:1" "" (pos 0) 0 0
      made same_config made_run
