-- ===== src/Desktop/Invariant.antt =====
-- What holds of the application's state between two handlers.
pub mod Results
pub mod Handlers
pub mod Frames
use teleop_led_benchmarks.Common.{
  ℕ, suc, ◌+◌, ◌≤◌, ◌<◌, ◌≡◌, Bool, true, false, Option, none, some, List, [], ◌∷◌, is_some, All,
  length, if◌then◌else◌,
}
use teleop_led_benchmarks.Desktop.State.{
  ConnectionType, web_socket, custom_tcp, IoResultType, UiEvent, ws_connected, ws_msg_received,
  tcp_connected, tcp_message_received, cancelled, IoResult, IoContext, AppState,
}

-- The handle of the connection that the connection type is about.
abbrev pub link : ConnectionType → AppState → Option ℕ
link web_socket s = s.ws
link custom_tcp s = s.tcp_sock

abbrev pub one_if {ℓ} : {A : Type ℓ} → Option A → ℕ
one_if none = 0
one_if (some a) = 1

abbrev pub connect_of : IoResultType → ℕ
connect_of ws_connected = 1
connect_of tcp_connected = 1
connect_of ws_msg_received = 0
connect_of tcp_message_received = 0
connect_of cancelled = 0

abbrev pub message_of : IoResultType → ℕ
message_of ws_connected = 0
message_of tcp_connected = 0
message_of ws_msg_received = 1
message_of tcp_message_received = 1
message_of cancelled = 0

-- Connections and messages that wait to be processed.
abbrev pub connects : List IoResult → ℕ
connects [] = 0
connects (r ∷ rs) = connect_of r.type + connects rs

abbrev pub messages : List IoResult → ℕ
messages [] = 0
messages (r ∷ rs) = message_of r.type + messages rs

-- A result belongs to the connection type, and a connection comes with its handle.
abbrev pub fits : ConnectionType → IoResultType → IoResult → Bool
fits web_socket ws_connected r = is_some r.ws
fits web_socket ws_msg_received r = true
fits web_socket tcp_connected r = false
fits web_socket tcp_message_received r = false
fits custom_tcp ws_connected r = false
fits custom_tcp ws_msg_received r = false
fits custom_tcp tcp_connected r = is_some r.tcp_sock
fits custom_tcp tcp_message_received r = true
fits web_socket cancelled r = true
fits custom_tcp cancelled r = true

abbrev pub AllFit : ConnectionType → List IoResult → Type 0
AllFit c = All (λ r. fits c r.type r ≡ true)

-- The operations of the other connection type were never started.
abbrev pub OnlyKind : ConnectionType → AppState → Type 0
OnlyKind web_socket s =
    (s.tcp_sock ≡ none) × (s.ioc.tcp_accepts ≡ 0) × (s.ioc.tcp_reads ≡ 0) × (s.ioc.tcp_writes ≡ 0)
OnlyKind custom_tcp s =
    (s.ws ≡ none) × (s.ioc.ws_accepts ≡ 0) × (s.ioc.ws_reads ≡ 0) × (s.ioc.ws_writes ≡ 0)

abbrev pub accepts : AppState → ℕ
accepts s = s.ioc.ws_accepts + s.ioc.tcp_accepts

abbrev pub reads : AppState → ℕ
reads s = s.ioc.ws_reads + s.ioc.tcp_reads

abbrev pub linked : AppState → ℕ
linked s = one_if s.ws + one_if s.tcp_sock

-- With `rs` the results still to be processed: one accept, connection in the list or connection in
-- use at most; one read or message in the list at most, and only for the connection in use.
pub record Wired (rs : List IoResult) (s : AppState) : Type 0 where
  pub only_kind : OnlyKind s.conn_type s
  pub all_fit : AllFit s.conn_type rs
  pub one_link : accepts s + connects rs + linked s ≤ 1
  pub one_read : reads s + messages rs ≤ linked s

-- Clicks wait only while there is a connection, and one at a time; until it is stopped, the
-- `io_context` always has the next frame posted, once.
pub record Inv (s : AppState) : Type 0 where
  pub wired : Wired s.io_results s
  pub one_click : length s.ui_events_to_process ≤ linked s
  pub one_frame : s.ioc.stopped ≡ false → s.ioc.posted ≡ 1

-- A step over the results changes nothing that the frame counts, and keeps the connection.
pub record Kept (s s' : AppState) : Type 0 where
  pub same_type : s'.conn_type ≡ s.conn_type
  pub same_clicks : s'.ui_events_to_process ≡ s.ui_events_to_process
  pub same_posted : s'.ioc.posted ≡ s.ioc.posted
  pub same_stopped : s'.ioc.stopped ≡ s.ioc.stopped
  pub still_linked : linked s ≤ linked s'
