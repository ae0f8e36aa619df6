-- ===== src/Conn/Shared.antt =====
-- What the connections of a server share: `Config` of stsync-proxy/src/srt/config.rs, `ServerMetrics`
-- of srt/metrics.rs with the gauges of metrics.rs, and the `SessionManager` of session.rs as an interface.
use streamsync.Base.{ℕ, Option}
use streamsync.Metrics.{fetch_add, fetch_sub}

-- The fields of `Config` that the handshake reads; `latency` is in milliseconds.
pub record Config : Type 0 where
  pub mtu : ℕ
  pub flow_window : ℕ
  pub buffer : ℕ
  pub latency : ℕ

pub record ServerMetrics : Type 0 where
  pub connections_total : ℕ
  pub connections_publish_current : ℕ
  pub connections_request_current : ℕ
  pub connections_handshake_current : ℕ

-- `Result<_, session::Error>`.
pub data Opened (A : Type 0) : Type 0 where
  opened : A → Opened A
  invalid_resource_id : Opened A
  invalid_credentials : Opened A
  server_error : Opened A

-- `SessionManager`, with the state `M` behind its `&self`. A `LiveStream` is what the polls of the
-- connection read, so `request` gives nothing with it; a `LiveSink` is its state `K`.
pub record SessionManager (M K : Type 0) : Type 0 where
  pub publish : Option ℕ → Option ℕ → M → Opened K × M
  pub request : Option ℕ → Option ℕ → M → Opened Unit × M

-- `State` without its pool.
pub record Shared (M : Type 0) : Type 0 where
  pub session_manager : M
  pub metrics : ServerMetrics

-- `connections_handshake_current.dec()` with the increment of the new mode's gauge.
abbrev pub to_request : ServerMetrics → ServerMetrics
to_request m = record m {
  connections_handshake_current = fetch_sub 1 m.connections_handshake_current;
  connections_request_current = fetch_add 1 m.connections_request_current;
}

abbrev pub to_publish : ServerMetrics → ServerMetrics
to_publish m = record m {
  connections_handshake_current = fetch_sub 1 m.connections_handshake_current;
  connections_publish_current = fetch_add 1 m.connections_publish_current;
}
