-- ===== src/Conn/Metrics.antt =====
-- stsync-proxy/src/srt/metrics.rs: the counters of one connection. A counter is its value.
use streamsync.Base.{ℕ}

pub record StreamMetrics : Type 0 where
  pub original : ℕ
  pub retransmitted : ℕ
  pub dropped : ℕ
  pub lost : ℕ

abbrev pub new_stream_metrics : StreamMetrics
new_stream_metrics = record { original = 0; retransmitted = 0; dropped = 0; lost = 0 }

pub record ConnectionMetrics : Type 0 where
  pub ctrl_packets_sent : ℕ
  pub ctrl_packets_recv : ℕ
  pub ctrl_packets_lost : ℕ
  pub ctrl_bytes_sent : ℕ
  pub ctrl_bytes_recv : ℕ
  pub ctrl_bytes_lost : ℕ
  pub data_packets_sent : StreamMetrics
  pub data_packets_recv : StreamMetrics
  pub data_bytes_sent : StreamMetrics
  pub data_bytes_recv : StreamMetrics
  pub rtt : ℕ
  pub rtt_variance : ℕ

abbrev pub new_metrics : ConnectionMetrics
new_metrics = record {
  ctrl_packets_sent = 0;
  ctrl_packets_recv = 0;
  ctrl_packets_lost = 0;
  ctrl_bytes_sent = 0;
  ctrl_bytes_recv = 0;
  ctrl_bytes_lost = 0;
  data_packets_sent = new_stream_metrics;
  data_packets_recv = new_stream_metrics;
  data_bytes_sent = new_stream_metrics;
  data_bytes_recv = new_stream_metrics;
  rtt = 0;
  rtt_variance = 0;
}
