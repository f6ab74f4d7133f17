-- ===== src/Desktop/State.antt =====
-- The data of desktop_app/src/app.cpp and app.hpp, and how a handler can end.
use teleop_led_benchmarks.Common.{ℕ, Bool, Option, List, Bytes}

pub data ConnectionType : Type 0 where
  web_socket custom_tcp : ConnectionType

pub data UiEventType : Type 0 where
  send_button_click : UiEventType

pub record UiEvent : Type 0 where
  pub type : UiEventType

pub data IoResultType : Type 0 where
  ws_connected ws_msg_received tcp_connected tcp_message_received cancelled : IoResultType

-- A `unique_ptr` to a stream or a socket is an optional handle; `none` is null.
pub record IoResult : Type 0 where
  pub type : IoResultType
  pub ws : Option ℕ
  pub tcp_sock : Option ℕ

-- What the application has started on its `io_context`: for each kind of asynchronous operation
-- how many have not completed, the calls of runAppLoop that are posted, the buffers handed to
-- `async_write`, the newest first, and whether `stop` was called.
pub record IoContext : Type 0 where
  pub ws_accepts : ℕ
  pub tcp_accepts : ℕ
  pub ws_reads : ℕ
  pub tcp_reads : ℕ
  pub ws_writes : ℕ
  pub tcp_writes : ℕ
  pub posted : ℕ
  pub written : List Bytes
  pub stopped : Bool

-- `clock_reads` counts the calls of `steady_clock::now()`; times are ticks of that clock. It and
-- the counters of `ioc` are the model's: they say what the code asked of its libraries.
pub record AppState : Type 0 where
  pub ioc : IoContext
  pub ui_events_to_process : List UiEvent
  pub io_results : List IoResult
  pub conn_type : ConnectionType
  pub tcp_sock : Option ℕ
  pub tcp_read_buf : Bytes
  pub ws : Option ℕ
  pub ws_read_buffer : Bytes
  pub is_sending_blink_command : Bool
  pub time_send_blink_command : ℕ
  pub blink_latency : ℕ
  pub clock_reads : ℕ

-- A handler returns, dereferences a null pointer, calls `std::abort`, or throws.
pub data Outcome {ℓ} (A : Type ℓ) : Type ℓ where
  ok : A → Outcome A
  null_deref : Outcome A
  aborted : Outcome A
  threw : Outcome A

infixl 5 ◌>>=◌
abbrev pub ◌>>=◌ {ℓ κ} : {A : Type ℓ} {B : Type κ} → Outcome A → (A → Outcome B) → Outcome B
ok a >>= f = f a
null_deref >>= f = null_deref
aborted >>= f = aborted
threw >>= f = threw

-- The handler returns, and with a state of which a predicate holds.
abbrev pub Returns {ℓ} : {A : Type ℓ} → Outcome A → (A → Type 0) → Type 0
Returns (ok a) P = P a
Returns null_deref P = ⊥
Returns aborted P = ⊥
Returns threw P = ⊥

-- A step that returns, and what follows it.
pub Returns->>= {ℓ κ} :
    {A : Type ℓ} {B : Type κ} (m : Outcome A) (f : A → Outcome B) (P : A → Type 0) (Q : B → Type 0)
    → Returns m P
    → ((a : A) → P a → Returns (f a) Q)
    → Returns (m >>= f) Q
Returns->>= (ok a) f P Q h k = k a h
Returns->>= null_deref f P Q h k = absurd h
Returns->>= aborted f P Q h k = absurd h
Returns->>= threw f P Q h k = absurd h

pub Returns-mono {ℓ} :
    {A : Type ℓ} (m : Outcome A) (P Q : A → Type 0)
    → Returns m P
    → ((a : A) → P a → Q a)
    → Returns m Q
Returns-mono (ok a) P Q h k = k a h
Returns-mono null_deref P Q h k = h
Returns-mono aborted P Q h k = h
Returns-mono threw P Q h k = h

-- If the handler returns, a predicate holds of the result.
abbrev pub Ensures {ℓ} : {A : Type ℓ} → Outcome A → (A → Type 0) → Type 0
Ensures (ok a) P = P a
Ensures null_deref P = Unit
Ensures aborted P = Unit
Ensures threw P = Unit

pub Ensures->>= {ℓ κ} :
    {A : Type ℓ} {B : Type κ} (m : Outcome A) (f : A → Outcome B) (P : A → Type 0) (Q : B → Type 0)
    → Ensures m P
    → ((a : A) → P a → Ensures (f a) Q)
    → Ensures (m >>= f) Q
Ensures->>= (ok a) f P Q h k = k a h
Ensures->>= null_deref f P Q h k = tt
Ensures->>= aborted f P Q h k = tt
Ensures->>= threw f P Q h k = tt

pub Ensures-mono {ℓ} :
    {A : Type ℓ} (m : Outcome A) (P Q : A → Type 0)
    → Ensures m P
    → ((a : A) → P a → Q a)
    → Ensures m Q
Ensures-mono (ok a) P Q h k = k a h
Ensures-mono null_deref P Q h k = tt
Ensures-mono aborted P Q h k = tt
Ensures-mono threw P Q h k = tt

pub Returns-both {ℓ} :
    {A : Type ℓ} (m : Outcome A) (P Q : A → Type 0)
    → Returns m P
    → Ensures m Q
    → Returns m (λ a. P a × Q a)
Returns-both (ok a) P Q h k = (h, k)
Returns-both null_deref P Q h k = h
Returns-both aborted P Q h k = h
Returns-both threw P Q h k = h
