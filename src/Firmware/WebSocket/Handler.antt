-- ===== src/Firmware/WebSocket/Handler.antt =====
-- What websocketEventHandler does on each event.
use teleop_led_benchmarks.Common.{
  ℕ, suc, ◌+◌, ◌*◌, ◌≡◌, refl, ap, ◌∙◌, Bool, true, false, ◌&&◌, ◌||◌, not, Option, none, some,
  List, [], ◌∷◌, ◌++◌, arith, Bytes, length, is_some, ◌==◌, append_assoc, append-nil, if◌then◌else◌,
  Option-cases, Bool-cases, inl, inr,
}
use teleop_led_benchmarks.Firmware.WebSocket.{
  EventId, begin, connected, disconnected, received, errored, finish, other, ErrorHandle, EventData,
  Element, Action, log_error, log_hex, log_close, send_text, log_element, reset_timer, Handled,
  returned, null_deref, report_error, answer_frame, log_elements, websocket_event_handler,
}
use teleop_led_benchmarks.Firmware.TcpApp.{received_msg}

abbrev pub is_named : Element → Bool
is_named e = is_some e.id && is_some e.name

abbrev pub log_of : Option Bytes → Option Bytes → List Action → List Action
log_of none name rest = []
log_of (some id) none rest = []
log_of (some id) (some name) rest = log_element id name ∷ rest

-- The logs of the elements up to the first that lacks an id or a name.
abbrev pub element_logs : List Element → List Action
element_logs [] = []
element_logs (e ∷ es) = log_of e.id e.name (element_logs es)

abbrev pub all_named : List Element → Bool
all_named [] = true
all_named (e ∷ es) = is_named e && all_named es

log_elements_lem :
    (es : List Element) (before : List Action)
    → log_elements es before ≡ (
        if all_named es
        then returned (before ++ (element_logs es ++ reset_timer ∷ []))
        else null_deref (before ++ element_logs es))
unfolding log_elements
log_elements_lem [] before = refl
log_elements_lem (e ∷ es) before = elim (Option-cases e.id) [
  | inl no_id ↦ rw (no_id, append-nil)
  | inr (id, has_id) ↦ elim (Option-cases e.name) [
    | inl no_name ↦ rw (has_id, no_name, append-nil)
    | inr (name, has_name) ↦
        rw (has_id, has_name)
          (log_elements_lem es (before ++ log_element id name ∷ []) ∙ simp append_assoc)
  ]
]

-- What the handler must do with data: reply to the frame, log the elements, reset the timer; at an
-- element without an id or a name it reads through a null pointer, and gets no further.
abbrev pub outcome : Option (List Element) → List Action → Handled
outcome none reply = returned (reply ++ reset_timer ∷ [])
outcome (some es) reply =
    if all_named es
    then returned (reply ++ (element_logs es ++ reset_timer ∷ []))
    else null_deref (reply ++ element_logs es)

-- On WEBSOCKET_EVENT_DATA the handler does what `answer_frame` does, and then the rest.
pub websocket_event_handler-received :
    (parse : Bytes → Option (List Element)) (d : EventData)
    → websocket_event_handler parse received d
      ≡ outcome (parse d.text) (answer_frame d.op_code d.payload)
unfolding websocket_event_handler
websocket_event_handler-received parse d = elim (Option-cases (parse d.text)) [
  | inl e ↦ rw e
  | inr (es, e) ↦ rw e (log_elements_lem es (answer_frame d.op_code d.payload))
]

-- How many texts are sent.
abbrev pub sends : List Action → ℕ
sends [] = 0
sends (send_text b ∷ acts) = suc (sends acts)
sends (reset_timer ∷ acts) = sends acts
sends (log_error m c ∷ acts) = sends acts
sends (log_hex b ∷ acts) = sends acts
sends (log_close c ∷ acts) = sends acts
sends (log_element i n ∷ acts) = sends acts

sends-append : (xs ys : List Action) → sends (xs ++ ys) ≡ sends xs + sends ys
sends-append [] ys = omega arith
sends-append (send_text b ∷ xs) ys = omega (arith, sends-append xs ys)
sends-append (reset_timer ∷ xs) ys = sends-append xs ys
sends-append (log_error m c ∷ xs) ys = sends-append xs ys
sends-append (log_hex b ∷ xs) ys = sends-append xs ys
sends-append (log_close c ∷ xs) ys = sends-append xs ys
sends-append (log_element i n ∷ xs) ys = sends-append xs ys

sends-log_of :
    (id name : Option Bytes) (rest : List Action) → sends rest ≡ 0 → sends (log_of id name rest) ≡ 0
sends-log_of none name rest h = refl
sends-log_of (some id) none rest h = refl
sends-log_of (some id) (some name) rest h = h

sends-element_logs : (es : List Element) → sends (element_logs es) ≡ 0
sends-element_logs [] = refl
sends-element_logs (e ∷ es) = sends-log_of e.id e.name (element_logs es) (sends-element_logs es)

abbrev pub actions_of : Handled → List Action
actions_of (returned acts) = acts
actions_of (null_deref acts) = acts

-- Data that is neither a binary frame nor a close frame with a code.
abbrev pub is_text : EventId → EventData → Bool
is_text received d = not (d.op_code == 0x2 || ((d.op_code == 0x08) && (length d.payload == 2)))
is_text begin d = false
is_text connected d = false
is_text disconnected d = false
is_text errored d = false
is_text finish d = false
is_text other d = false

sends-answer_frame :
    (d : EventData)
    → sends (answer_frame d.op_code d.payload) ≡ (if is_text received d then 1 else 0)
unfolding answer_frame
sends-answer_frame d = ground arith

sends-report_error : (h : ErrorHandle) → sends (report_error h) ≡ 0
unfolding report_error
sends-report_error h = ground arith

sends-outcome :
    (parsed : Option (List Element)) (reply : List Action)
    → sends (actions_of (outcome parsed reply)) ≡ sends reply
sends-outcome none reply = omega (arith, sends-append reply (reset_timer ∷ []))
sends-outcome (some es) reply = elim (Bool-cases (all_named es)) [
  | inl e ↦ rw e (
      omega (
        arith,
        sends-append reply (element_logs es ++ reset_timer ∷ []),
        sends-append (element_logs es) (reset_timer ∷ []),
        sends-element_logs es,
      ))
  | inr e ↦ rw e (omega (arith, sends-append reply (element_logs es), sends-element_logs es))
]

-- Whatever the parser finds, the handler sends exactly one text for data that is neither a binary
-- frame nor a close frame with a code, and none on any other event.
sends-websocket_event_handler :
    (parse : Bytes → Option (List Element)) (id : EventId) (d : EventData)
    → sends (actions_of (websocket_event_handler parse id d)) ≡ (if is_text id d then 1 else 0)
unfolding websocket_event_handler
sends-websocket_event_handler parse begin d = refl
sends-websocket_event_handler parse connected d = refl
sends-websocket_event_handler parse disconnected d = sends-report_error d.error_handle
sends-websocket_event_handler parse errored d = sends-report_error d.error_handle
sends-websocket_event_handler parse finish d = refl
sends-websocket_event_handler parse other d = refl
sends-websocket_event_handler parse received d =
    rw (websocket_event_handler-received parse d)
      (sends-outcome (parse d.text) (answer_frame d.op_code d.payload) ∙ sends-answer_frame d)

-- The code that a close frame of two bytes holds, the high byte first.
abbrev close_code : Bytes → Option ℕ
close_code [] = none
close_code (high ∷ []) = none
close_code (high ∷ low ∷ []) = some (256 * high + low)
close_code (high ∷ low ∷ b ∷ bs) = none

abbrev log_code : Option ℕ → Action
log_code none = send_text received_msg
log_code (some code) = log_close code

-- What the handler must do with a frame: it logs the bytes of a binary frame and the code of a close
-- frame that holds one, without a reply, and replies to any other.
abbrev pub reply_to : EventData → Action
reply_to d =
    if d.op_code == 0x2
    then log_hex d.payload
    else log_code (if d.op_code == 0x08 then close_code d.payload else none)

answer_frame-reply_to :
    (op : ℕ) (payload text : Bytes) (h : ErrorHandle)
    → answer_frame op payload
      ≡ reply_to (record { op_code = op; payload = payload; text = text; error_handle = h }) ∷ []
unfolding answer_frame
answer_frame-reply_to op [] text h = ground arith
answer_frame-reply_to op (high ∷ []) text h = ground arith
answer_frame-reply_to op (high ∷ low ∷ []) text h = ground arith
answer_frame-reply_to op (high ∷ low ∷ b ∷ bs) text h = ground arith

-- On WEBSOCKET_EVENT_DATA the handler logs the bytes of a binary frame, logs the code of a close
-- frame of two bytes, and sends the reply text for any other frame; then it logs every parsed element
-- and resets the shutdown timer, in this order, if the text does not parse or each of its elements
-- has an id and a name, else it reads through a null pointer behind the first element that lacks one,
-- and the timer is not reset. On every event it sends one text if that is data neither binary nor a
-- close frame of two bytes, and none otherwise.
pub websocket_event_handler_lem :
    (parse : Bytes → Option (List Element)) (id : EventId) (d : EventData)
    → (websocket_event_handler parse received d ≡ outcome (parse d.text) (reply_to d ∷ []))
      × (sends (actions_of (websocket_event_handler parse id d)) ≡ (if is_text id d then 1 else 0))
websocket_event_handler_lem parse id d = (
  websocket_event_handler-received parse d
      ∙ ap (outcome (parse d.text))
          (answer_frame-reply_to d.op_code d.payload d.text d.error_handle),
  sends-websocket_event_handler parse id d,
)
