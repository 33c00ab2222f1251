-- ===== src/Monitor/Types.antt =====
-- The state of `NetworkMonitor`, and the functions that it passes to its client.
use learncppthroughprojects.Prelude.{Option, List, Text, Outcome}
use learncppthroughprojects.Transport.Types.{TransportNetwork}
use learncppthroughprojects.Client.Types.{StompClient, Effect}

-- `NetworkMonitorConfig`; the certificate is read by the TLS library alone.
pub record NetworkMonitorConfig : Type 0 where
  pub url : Text
  pub endpoint : Text
  pub port : Text
  pub username : Text
  pub password : Text
  pub stomp_endpoint : Text
  pub cert_path : Text
  pub network_layout_path : Text

pub data MonitorFunction : Type 0 where
  log_disconnect log_subscribe log_close : MonitorFunction
  subscribe_on_connect handle_on_message : MonitorFunction

-- The data members, `ioc_` and `ctx_` left out; `client_` is null until `Configure`.
pub record NetworkMonitor : Type 0 where
  pub network : TransportNetwork
  pub client : Option (StompClient MonitorFunction)

-- A line of `Log`: its source and its message.
pub record LogLine : Type 0 where
  pub source : Text
  pub msg : Text

-- What goes out of the monitor: calls of the WebSocket client, and lines of the log.
pub data Output : Type 0 where
  performs : Effect MonitorFunction → Output
  logs : LogLine → Output

abbrev pub Handled : Type 0
Handled = Outcome (NetworkMonitor × List Output)
