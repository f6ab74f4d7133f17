-- ===== src/Firmware/WebSocket.antt =====
-- websocketEventHandler of esp32_cam/main/main.cpp.
pub mod Handler
use Prim.Native.String.{String}
use teleop_led_benchmarks.Common.{
  ℕ, zero, suc, ◌+◌, ◌*◌, ◌/◌, leb, Bool, true, false, ◌&&◌, Option, none, some, List, [], ◌∷◌,
  ◌++◌, Bytes, length, is_some, ◌==◌, if◌then◌else◌,
}
use teleop_led_benchmarks.Common.Int.{ℤ, is_zero}
use teleop_led_benchmarks.Firmware.TcpApp.{received_msg}

-- The event ids that the handler tells apart.
pub data EventId : Type 0 where
  begin connected disconnected received errored finish other : EventId

-- The fields of `error_handle` that the handler reads.
pub record ErrorHandle : Type 0 where
  pub handshake_status_code : ℤ
  pub is_tcp_transport : Bool
  pub tls_last_esp_err : ℤ
  pub tls_stack_err : ℤ
  pub sock_errno : ℤ

-- `payload` are the `data_len` bytes at `data_ptr`; `text` is the zero-terminated string there.
pub record EventData : Type 0 where
  pub op_code : ℕ
  pub payload : Bytes
  pub text : Bytes
  pub error_handle : ErrorHandle

-- An element of a parsed array: its items "id" and "name", where they are present.
pub record Element : Type 0 where
  pub id : Option Bytes
  pub name : Option Bytes

-- What the handler does: it logs an error code, received bytes, a close code or an element, sends
-- a text, or resets the shutdown timer.
pub data Action : Type 0 where
  log_error : String → ℤ → Action
  log_hex : Bytes → Action
  log_close : ℕ → Action
  send_text : Bytes → Action
  log_element : Bytes → Bytes → Action
  reset_timer : Action

-- The handler returns, or reads through a null `cJSON` pointer, after its actions.
pub data Handled : Type 0 where
  returned : List Action → Handled
  null_deref : List Action → Handled

unfoldable pub log_error_if_nonzero : String → ℤ → List Action
log_error_if_nonzero message code = if is_zero code then [] else log_error message code ∷ []

-- The body of WEBSOCKET_EVENT_DISCONNECTED, and that of WEBSOCKET_EVENT_ERROR.
unfoldable pub report_error : ErrorHandle → List Action
unfolding log_error_if_nonzero
report_error h =
    log_error_if_nonzero "HTTP status code" h.handshake_status_code
    ++ (if h.is_tcp_transport
        then log_error_if_nonzero "reported from esp-tls" h.tls_last_esp_err
          ++ (log_error_if_nonzero "reported from tls stack" h.tls_stack_err
              ++ log_error_if_nonzero "captured as transport's socket errno" h.sock_errno)
        else [])

-- `data_ptr[0]` and `data_ptr[1]`; `char` is unsigned on the target.
abbrev pub byte_at : Bytes → ℕ → ℕ
byte_at [] i = 0
byte_at (b ∷ bs) zero = b
byte_at (b ∷ bs) (suc i) = byte_at bs i

-- The reply to a frame, by its opcode.
unfoldable pub answer_frame : ℕ → Bytes → List Action
answer_frame op_code payload =
    if op_code == 0x2
    then log_hex payload ∷ []
    else if (op_code == 0x08) && (length payload == 2)
    then log_close (256 * byte_at payload 0 + byte_at payload 1) ∷ []
    else send_text received_msg ∷ []

-- The loop over the elements; the last argument is what was done before.
log_one : Option Bytes → Option Bytes → Option Action
log_one none name = none
log_one (some id) none = none
log_one (some id) (some name) = some (log_element id name)

after_one : Option Action → List Action → (List Action → Handled) → Handled
after_one none before next = null_deref before
after_one (some a) before next = next (before ++ a ∷ [])

unfoldable pub log_elements : List Element → List Action → Handled
unfolding log_one after_one
log_elements [] before = returned (before ++ reset_timer ∷ [])
log_elements (e ∷ es) before = after_one (log_one e.id e.name) before (log_elements es)

-- `cJSON_Parse` failed, or gave these elements.
log_parsed : Option (List Element) → List Action → Handled
unfolding log_elements
log_parsed none before = returned (before ++ reset_timer ∷ [])
log_parsed (some es) before = log_elements es before

-- `websocketEventHandler`; `parse` is `cJSON_Parse` with the accesses to its result.
unfoldable pub websocket_event_handler :
    (Bytes → Option (List Element)) → EventId → EventData → Handled
unfolding report_error answer_frame log_parsed
websocket_event_handler parse begin d = returned []
websocket_event_handler parse connected d = returned []
websocket_event_handler parse disconnected d = returned (report_error d.error_handle)
websocket_event_handler parse received d =
    log_parsed (parse d.text) (answer_frame d.op_code d.payload)
websocket_event_handler parse errored d = returned (report_error d.error_handle)
websocket_event_handler parse finish d = returned []
websocket_event_handler parse other d = returned []
