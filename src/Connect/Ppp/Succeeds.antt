-- ===== src/Connect/Ppp/Succeeds.antt =====
-- That example_ppp_connect of ppp_connect.c succeeds once the interface has its address.
use teleop_led_benchmarks.Common.{
  Returns, Returns-mono, ℕ, ◌+◌, ◌≤◌, ◌≡◌, refl, Bool, true, false, some, List, [], ◌∷◌, ◌++◌,
  arith,
}
use teleop_led_benchmarks.Connect.Ppp.{
  Config, Ppp, Phase, waiting, returned, esp_ok, esp_fail, ppp_got_ip, got_ip6, ppp_lost_ip,
  other_event, Event, ip_event, task_runs, ppp_connect, end_wait, ppp_step, ppp_run,
}
use teleop_led_benchmarks.Connect.Ppp.Attempts.{losses}

-- An address of our interface comes, then the task makes its step.
abbrev pub address : List Event
address = ip_event (ppp_got_ip true) ∷ task_runs ∷ []

abbrev has_failed : Phase → Bool
has_failed waiting = false
has_failed (returned esp_ok) = false
has_failed (returned esp_fail) = true

module _ (c : Config) where
  -- The handler is registered, and nothing has failed, nor will by so many more losses.
  record Alive (lost : ℕ) (p : Ppp) : Type 0 where
    pub hears : p.registered ≡ true
    pub no_failure : p.connection_failed ≡ false
    pub not_failed : has_failed p.phase ≡ false
    pub may_lose : p.retry_num + lost ≤ c.max_retry

  end_wait-Alive :
      (lost : ℕ) (p : Ppp) (r : Phase) → p.phase ≡ r → Alive lost p → Alive lost (end_wait c r p)
  unfolding end_wait
  end_wait-Alive lost p waiting e i = ground arith
  end_wait-Alive lost p (returned r) e i = i

  ppp_step-Alive :
      (e : Event) (es : List Event) (p : Ppp)
      → Alive (losses (e ∷ es)) p
      → Alive (losses es) (ppp_step c e p)
  unfolding ppp_step
  ppp_step-Alive (ip_event (ppp_got_ip ours)) es p i = ground arith
  ppp_step-Alive (ip_event (got_ip6 ours preferred)) es p i = ground arith
  ppp_step-Alive (ip_event ppp_lost_ip) es p i = ground arith
  ppp_step-Alive (ip_event other_event) es p i = ground arith
  ppp_step-Alive task_runs es p i = end_wait-Alive (losses es) p p.phase refl i

  succeeds :
      (p : Ppp) (r : Phase)
      → p.phase ≡ r
      → Alive 0 p
      → (ppp_run c address p).phase ≡ returned esp_ok
  unfolding ppp_run
  succeeds p waiting e i = ground arith
  succeeds p (returned esp_ok) e i = ground arith
  succeeds p (returned esp_fail) e i = ground arith

  ppp_run-address :
      (es : List Event) (p : Ppp)
      → Alive (losses es) p
      → (ppp_run c (es ++ address) p).phase ≡ returned esp_ok
  unfolding ppp_run
  ppp_run-address [] p i = succeeds p p.phase refl i
  ppp_run-address (e ∷ es) p i = ppp_run-address es (ppp_step c e p) (ppp_step-Alive e es p i)

  ppp_connect-Alive :
      (netif lost : ℕ) (p : Ppp)
      → p.retry_num + lost ≤ c.max_retry
      → Returns (ppp_connect c true (some netif) true p) (Alive lost)
  unfolding ppp_connect
  ppp_connect-Alive netif lost p h = ground arith

  -- Where no checked call fails and the task is created: after example_ppp_connect and any events in any
  -- order with no more losses of the address than the limit leaves, an address of our interface and
  -- one more step make it return ESP_OK.
  pub ppp_connect-address :
      (netif : ℕ) (es : List Event) (p : Ppp)
      → p.retry_num + losses es ≤ c.max_retry
      → Returns
          (ppp_connect c true (some netif) true p)
          (λ p1. (ppp_run c (es ++ address) p1).phase ≡ returned esp_ok)
  ppp_connect-address netif es p h =
      Returns-mono (ppp_connect c true (some netif) true p) _ _
        (ppp_connect-Alive netif (losses es) p h) (λ p1 i. ppp_run-address es p1 i)
