-- ===== src/Metrics.antt =====
-- internal/metrics/metrics.go: the collector of a node's counters and of what it saw of its peers.
-- Floating-point numbers and the clock are parameters; the lock makes each operation one step.
pub mod Totals
use aldea.Prelude.{ℕ, ◌/◌, Bool, String, Option, List, [], if◌then◌else◌, suc}
use aldea.Prelude.Int.{ℤ, pos, negsuc, add64, ltb_ℤ, sub_ℕ}
use aldea.Prelude.Dict.{Dict, insert}
use aldea.Scheduler.{Float}

pub record PeerMetric : Type 0 where
  pub node_id : String
  pub latency_ms : ℤ
  pub is_healthy : Bool
  pub last_seen : ℤ

pub record MetricsSnapshot (F : Type 0) : Type 0 where
  pub storage_allocated : ℤ
  pub storage_used : ℤ
  pub storage_percent : F
  pub bytes_sent_total : ℤ
  pub bytes_received_total : ℤ
  pub peers : Dict PeerMetric

pub record Collector : Type 0 where
  pub storage_alloc : ℤ
  pub storage_used : ℤ
  pub bytes_sent : ℤ
  pub bytes_received : ℤ
  pub peers : Dict PeerMetric

abbrev pub new_collector : Collector
new_collector = record {
  storage_alloc = pos 0;
  storage_used = pos 0;
  bytes_sent = pos 0;
  bytes_received = pos 0;
  peers = [];
}

unfoldable pub record_storage : ℤ → ℤ → Collector → Collector
record_storage allocated used c = record c { storage_alloc = allocated; storage_used = used }

unfoldable pub record_transfer : ℤ → ℤ → Collector → Collector
record_transfer sent received c = record c {
  bytes_sent = add64 c.bytes_sent sent;
  bytes_received = add64 c.bytes_received received;
}

-- `Duration.Milliseconds` rounds towards zero.
unfoldable pub milliseconds : ℤ → ℤ
milliseconds (pos n) = pos (n / 1_000_000)
milliseconds (negsuc n) = sub_ℕ 0 (suc n / 1_000_000)

unfoldable pub record_peer_status : ℤ → String → ℤ → Bool → Collector → Collector
record_peer_status now node_id latency is_healthy c = record c {
  peers =
      insert node_id
        (record {
          node_id = node_id;
          latency_ms = milliseconds latency;
          is_healthy = is_healthy;
          last_seen = now;
        })
        c.peers;
}

module _ {F : Type 0} (fl : Float F) where
  open fl use {of_int, div, mul}

  unfoldable pub get_snapshot : Collector → MetricsSnapshot F
  get_snapshot c = record {
    storage_allocated = c.storage_alloc;
    storage_used = c.storage_used;
    storage_percent =
        if ltb_ℤ (pos 0) c.storage_alloc
        then mul (div (of_int c.storage_used) (of_int c.storage_alloc)) (of_int (pos 100))
        else of_int (pos 0);
    bytes_sent_total = c.bytes_sent;
    bytes_received_total = c.bytes_received;
    peers = c.peers;
  }
