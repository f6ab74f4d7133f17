-- ===== src/Connect/Ppp/Attempts.antt =====
-- How often the PPP link is started again, and when example_ppp_connect succeeds.
use teleop_led_benchmarks.Common.{
  or_assoc, ℕ, suc, ◌+◌, ◌-◌, ◌≡◌, refl, ◌∙◌, ltb, Bool, true, false, ◌&&◌, ◌||◌, some, List, [],
  ◌∷◌, arith, if◌then◌else◌,
}
use teleop_led_benchmarks.Connect.Ppp.{
  Config, Call, action_start, action_connected, action_disconnected, action_stop, destroy,
  group_delete, create_task, usb_install, receive, usb_write, uart_write, usb_flush, uart_install,
  malloc, free, register_connected, esp_ok, esp_fail, Phase, waiting, returned, Ppp, ppp_got_ip,
  got_ip6, ppp_lost_ip, other_event, ppp_connect, end_wait, Event, ip_event, task_runs, ppp_step,
  ppp_run,
}

abbrev starts_by : Call → ℕ
starts_by (action_start netif) = 1
starts_by (action_connected netif) = 0
starts_by (action_disconnected netif) = 0
starts_by (action_stop netif) = 0
starts_by (destroy netif) = 0
starts_by group_delete = 0
starts_by create_task = 0
starts_by usb_install = 0
starts_by (receive netif bytes) = 0
starts_by (usb_write bytes) = 0
starts_by (uart_write bytes) = 0
starts_by usb_flush = 0
starts_by uart_install = 0
starts_by malloc = 0
starts_by free = 0
starts_by (register_connected netif) = 0

-- How often the interface was started.
abbrev pub starts : List Call → ℕ
starts [] = 0
starts (call ∷ calls) = starts_by call + starts calls

-- How often the link lost its address.
abbrev pub losses : List Event → ℕ
losses [] = 0
losses (ip_event ppp_lost_ip ∷ es) = suc (losses es)
losses (ip_event (ppp_got_ip ours) ∷ es) = losses es
losses (ip_event (got_ip6 ours preferred) ∷ es) = losses es
losses (ip_event other_event ∷ es) = losses es
losses (task_runs ∷ es) = losses es

abbrev smaller : ℕ → ℕ → ℕ
smaller a b = if ltb a b then a else b

-- What a run with so many losses has done to the count, the starts and the failure bit.
pub record Counted (c : Config) (lost : ℕ) (p p' : Ppp) : Type 0 where
  pub counts : p'.retry_num ≡ p.retry_num + lost
  pub restarts : starts p'.calls ≡ starts p.calls + smaller lost (c.max_retry - p.retry_num)
  pub fails :
      p'.connection_failed
      ≡ (p.connection_failed || (ltb 0 lost && ltb c.max_retry (p.retry_num + lost)))

module _ (c : Config) where
  step-Counted :
      (e : Event) (es : List Event) (p p' : Ppp)
      → p.registered ≡ true
      → Counted c (losses es) (ppp_step c e p) p'
      → Counted c (losses (e ∷ es)) p p'
  unfolding ppp_step
  step-Counted (ip_event ppp_lost_ip) es p p' r k = ground arith
  step-Counted (ip_event (ppp_got_ip ours)) es p p' r k = ground arith
  step-Counted (ip_event (got_ip6 ours preferred)) es p p' r k = ground arith
  step-Counted (ip_event other_event) es p p' r k = ground arith
  step-Counted task_runs es p p' r k = ground arith

  step-registered : (e : Event) (p : Ppp) → (ppp_step c e p).registered ≡ p.registered
  unfolding ppp_step
  step-registered (ip_event ppp_lost_ip) p = ground arith
  step-registered (ip_event (ppp_got_ip ours)) p = ground arith
  step-registered (ip_event (got_ip6 ours preferred)) p = ground arith
  step-registered (ip_event other_event) p = ground arith
  step-registered task_runs p = ground arith

  -- While on_ip_event is registered, and with any events in any order: every loss of the address
  -- adds one to the count, which an address does not reset; the interface is started again at the
  -- first losses only, at most as often as the limit leaves; and the connection counts as failed
  -- from the loss that passes the limit.
  pub ppp_run-Counted :
      (es : List Event) (p : Ppp) → p.registered ≡ true → Counted c (losses es) p (ppp_run c es p)
  unfolding ppp_run
  ppp_run-Counted [] p r = ground arith
  ppp_run-Counted (e ∷ es) p r =
      step-Counted e es p (ppp_run c es (ppp_step c e p)) r
        (ppp_run-Counted es (ppp_step c e p) (step-registered e p ∙ r))

-- Whether one of the events brings an address of our interface that the configuration waits for.
abbrev pub brings_ip : Config → Event → Bool
brings_ip c (ip_event (ppp_got_ip ours)) = ours
brings_ip c (ip_event (got_ip6 ours preferred)) = c.ipv6 && (ours && preferred)
brings_ip c (ip_event ppp_lost_ip) = false
brings_ip c (ip_event other_event) = false
brings_ip c task_runs = false

abbrev pub has_ip : Config → List Event → Bool
has_ip c [] = false
has_ip c (e ∷ es) = brings_ip c e || has_ip c es

abbrev pub is_success : Phase → Bool
is_success waiting = false
is_success (returned esp_ok) = true
is_success (returned esp_fail) = false

-- A bit for an address is set, and ESP_OK returned, only after an address.
record Earned (c : Config) (seen : Bool) (p : Ppp) : Type 0 where
  pub bit4 : p.got_ipv4 ≡ true → seen ≡ true
  pub bit6 : p.got_ipv6 ≡ true → seen ≡ true
  pub success : is_success p.phase ≡ true → seen ≡ true

module _ (c : Config) where
  end_wait-Earned :
      (phase : Phase) (seen : Bool) (p : Ppp)
      → p.phase ≡ phase
      → Earned c seen p
      → Earned c (seen || false) (end_wait c phase p)
  unfolding end_wait
  end_wait-Earned phase seen p e i = ground arith

  step-Earned :
      (e : Event) (seen : Bool) (p : Ppp)
      → Earned c seen p
      → Earned c (seen || brings_ip c e) (ppp_step c e p)
  unfolding ppp_step
  step-Earned (ip_event ppp_lost_ip) seen p i = ground arith
  step-Earned (ip_event (ppp_got_ip ours)) seen p i = ground arith
  step-Earned (ip_event (got_ip6 ours preferred)) seen p i = ground arith
  step-Earned (ip_event other_event) seen p i = ground arith
  step-Earned task_runs seen p i = end_wait-Earned p.phase seen p refl i

  run-Earned :
      (es : List Event) (seen : Bool) (p : Ppp)
      → Earned c seen p
      → Earned c (seen || has_ip c es) (ppp_run c es p)
  unfolding ppp_run
  run-Earned [] seen p i = ground arith
  run-Earned (e ∷ es) seen p i =
      rw (or_assoc seen (brings_ip c e) (has_ip c es))
        (run-Earned es (seen || brings_ip c e) (ppp_step c e p) (step-Earned e seen p i))

  connect-Earned :
      (checks creates : Bool) (netif : ℕ) (p p1 : Ppp)
      → ppp_connect c checks (some netif) creates p ≡ some p1
      → Earned c false p1
  unfolding ppp_connect
  connect-Earned checks creates netif p p1 e = ground arith

  -- Where example_ppp_connect has returned ESP_OK, after any events in any order, our interface got
  -- an IPv4 address, or with IPv6 one of the preferred type, since the call.
  pub ppp_run-has_ip :
      (es : List Event) (checks creates : Bool) (netif : ℕ) (p p1 : Ppp)
      → ppp_connect c checks (some netif) creates p ≡ some p1
      → is_success (ppp_run c es p1).phase ≡ true
      → has_ip c es ≡ true
  ppp_run-has_ip es checks creates netif p p1 e ok =
      let i = run-Earned es false p1 (connect-Earned checks creates netif p p1 e) in i.success ok
