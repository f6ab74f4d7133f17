-- ===== src/Connect/Ppp/DeviceTask.antt =====
-- The bytes between the PPP interface and its device: transmit, the callbacks of the USB channel,
-- and the UART's task, of ppp_connect.c.
use teleop_led_benchmarks.Common.{
  ℕ, ◌≡◌, refl, ap, Bool, true, Option, none, some, List, [], ◌∷◌, ◌++◌, arith, Bytes, ◌==◌,
  if◌then◌else◌, Bool-cases, inl, inr,
}
use teleop_led_benchmarks.Connect.Ppp.{
  Device, usb, uart, Call, receive, usb_write, uart_write, usb_flush, uart_install, malloc, free,
  register_connected, Ppp, log, start_netif,
}

-- `transmit`.
unfoldable pub transmit : Device → Bytes → Ppp → Ppp
transmit usb bytes p = log usb_flush (log (usb_write bytes) p)
transmit uart bytes p = log (uart_write bytes) p

-- `line_state_changed`.
unfoldable pub line_state_changed : ℕ → Ppp → Ppp
line_state_changed itf p = record p { itf = itf }

receive_read : Option Bytes → Ppp → Ppp
receive_read none p = p
receive_read (some bytes) p = log (receive p.netif bytes) p

-- `cdc_rx_callback`: what `tinyusb_cdcacm_read` reads, or `none` for an error.
unfoldable pub cdc_rx_callback : ℕ → Option Bytes → Ppp → Ppp
unfolding receive_read
cdc_rx_callback itf answer p = if itf == p.itf then receive_read answer p else p

pub data UartEvent : Type 0 where
  uart_data other_uart : UartEvent

-- One round of the task: `s_stop_task` at its test, the event of the queue or `none` after a
-- second, the length of the buffered data, and what `uart_read_bytes` reads.
pub record TaskRound : Type 0 where
  pub stop : Bool
  pub arrived : Option UartEvent
  pub len : ℕ
  pub bytes : Bytes

-- The queue's answer leaves the variable `event` alone where none arrived.
abbrev pub latest : Option UartEvent → UartEvent → UartEvent
latest none event = event
latest (some e) event = e

read_uart : UartEvent → TaskRound → Ppp → Ppp
read_uart uart_data r p = if r.len == 0 then p else log (receive p.netif r.bytes) p
read_uart other_uart r p = p

-- The task waits in its loop, or has freed its buffer and deleted itself.
pub data TaskEnd : Type 0 where
  running deleted : TaskEnd

-- The loop of `ppp_task`, with the variable `event`, over its rounds.
unfoldable pub task_loop : List TaskRound → UartEvent → Ppp → Ppp × TaskEnd
unfolding read_uart
task_loop [] event p = (p, running)
task_loop (r ∷ rounds) event p =
    let event' = latest r.arrived event in
    let rest = task_loop rounds event' (read_uart event' r p) in
    if r.stop then (p, deleted) else rest

-- `ppp_task` up to its loop: the driver, the buffer, the handler that tells the interface of its
-- address, and the start of the interface.
set_up : Ppp → Ppp
unfolding start_netif
set_up p = start_netif (log (register_connected p.netif) (log malloc (log uart_install p)))

free_buffer : Ppp × TaskEnd → Ppp × TaskEnd
free_buffer (p, running) = (p, running)
free_buffer (p, deleted) = (log free p, deleted)

-- `ppp_task`: whether the driver can be set up; `none` is an abort.
unfoldable pub ppp_task : Bool → List TaskRound → UartEvent → Ppp → Option (Ppp × TaskEnd)
unfolding set_up task_loop free_buffer
ppp_task installs rounds event p =
    if installs then some (free_buffer (task_loop rounds event (set_up p))) else none

-- What each round reads, by the last event that arrived, up to the round that stops.
abbrev chunk : UartEvent → TaskRound → List Bytes
chunk uart_data r = if r.len == 0 then [] else r.bytes ∷ []
chunk other_uart r = []

abbrev pub chunks : List TaskRound → UartEvent → List Bytes
chunks [] event = []
chunks (r ∷ rounds) event =
    let event' = latest r.arrived event in
    let rest = chunk event' r ++ chunks rounds event' in if r.stop then [] else rest

abbrev pub any_stop : List TaskRound → TaskEnd
any_stop [] = running
any_stop (r ∷ rounds) = if r.stop then deleted else any_stop rounds

-- The calls that pass chunks to an interface, the newest first, before others.
abbrev pub received : Option ℕ → List Bytes → List Call → List Call
received netif [] calls = calls
received netif (bytes ∷ more) calls = received netif more (receive netif bytes ∷ calls)

read_uart-received :
    (event : UartEvent) (r : TaskRound) (more : List Bytes) (p : Ppp)
    → let q = read_uart event r p in
      record q { calls = received q.netif more q.calls }
      ≡ record p { calls = received p.netif (chunk event r ++ more) p.calls }
unfolding read_uart
read_uart-received uart_data r more p = ground arith
read_uart-received other_uart r more p = refl

-- The loop passes what it reads to the interface, each chunk once and in order, and ends at the
-- first round that sees the stop flag; a second without an event counts as another event of the
-- kind that came last.
task_loop_lem :
    (rounds : List TaskRound) (event : UartEvent) (p : Ppp)
    → task_loop rounds event p
      ≡ (record p { calls = received p.netif (chunks rounds event) p.calls }, any_stop rounds)
unfolding task_loop
task_loop_lem [] event p = refl
task_loop_lem (r ∷ rounds) event p = elim (Bool-cases r.stop) [
  | inl s ↦ ground arith
  | inr s ↦
      let event' = latest r.arrived event in
      simp (s, task_loop_lem rounds event' (read_uart event' r p))
        (ap (λ q. (q, any_stop rounds)) (read_uart-received event' r (chunks rounds event') p))
]

-- A task that is stopped has started the interface once, passed to it what it read up to then, each
-- chunk once and in order, and freed its buffer; the handler that it registered stays.
ppp_task-stopped :
    (rounds : List TaskRound) (event : UartEvent) (p : Ppp)
    → any_stop rounds ≡ deleted
    → let ready = set_up p in
      ppp_task true rounds event p
      ≡ some (
        record ready { calls = free ∷ received p.netif (chunks rounds event) ready.calls },
        deleted,
      )
unfolding ppp_task
ppp_task-stopped rounds event p stopped = rw (task_loop_lem rounds event (set_up p), stopped) refl
