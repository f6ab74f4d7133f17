-- ===== src/Connect/FrontEnd/Order.antt =====
-- What example_connect connects, and what example_disconnect leaves.
use teleop_led_benchmarks.Common.{
  ◌≡◌, Bool, true, false, not, ◌&&◌, ◌||◌, List, [], ◌∷◌, ◌++◌, arith,
}
use teleop_led_benchmarks.Connect.FrontEnd.{
  Link, ethernet, wifi, thread, ppp, Step, connects, registers, prints, shuts_down, unregisters,
  esp_ok, esp_fail, example_connect, example_disconnect,
}

-- Which shutdown handlers are registered after some steps.
abbrev pub is_link : Link → Link → Bool
is_link ethernet ethernet = true
is_link ethernet wifi = false
is_link ethernet thread = false
is_link ethernet ppp = false
is_link wifi ethernet = false
is_link wifi wifi = true
is_link wifi thread = false
is_link wifi ppp = false
is_link thread ethernet = false
is_link thread wifi = false
is_link thread thread = true
is_link thread ppp = false
is_link ppp ethernet = false
is_link ppp wifi = false
is_link ppp thread = false
is_link ppp ppp = true

abbrev pub is_registered : Link → List Step → Bool → Bool
is_registered l [] before = before
is_registered l (registers l' ∷ steps) before = is_registered l steps (before || is_link l l')
is_registered l (unregisters l' ∷ steps) before =
    is_registered l steps (before && not (is_link l l'))
is_registered l (connects l' ∷ steps) before = is_registered l steps before
is_registered l (prints l' ∷ steps) before = is_registered l steps before
is_registered l (shuts_down l' ∷ steps) before = is_registered l steps before

-- Whether the links that are enabled all connect.
abbrev pub all_connect : (Link → Bool) → (Link → Bool) → Bool
all_connect enabled returns_ok =
    (not (enabled ethernet) || returns_ok ethernet)
    && ((not (enabled wifi) || returns_ok wifi)
        && ((not (enabled thread) || returns_ok thread) && (not (enabled ppp) || returns_ok ppp)))

-- Where the shutdown handlers can be registered, example_connect returns ESP_OK if every enabled
-- link connects, and has then registered the shutdown handlers of exactly these; else it returns
-- ESP_FAIL.
pub example_connect_lem :
    (enabled returns_ok : Link → Bool)
    → let (steps, result) = example_connect enabled returns_ok (λ l. true) in
      (all_connect enabled returns_ok ≡ true
        → (result ≡ esp_ok) × ((l : Link) → is_registered l steps false ≡ enabled l))
      × (all_connect enabled returns_ok ≡ false → result ≡ esp_fail)
unfolding example_connect
example_connect_lem enabled returns_ok = (
  (λ h. (
    ground arith,
    λ l. elim l [
      | ethernet ↦ ground arith
      | wifi ↦ ground arith
      | thread ↦ ground arith
      | ppp ↦ ground arith
    ],
  )),
  λ h. ground arith,
)

-- Where no checked call fails, example_disconnect after a successful example_connect leaves the
-- shutdown handlers of the enabled Thread and PPP links registered, and no others.
pub example_disconnect_lem :
    (enabled returns_ok : Link → Bool) (l : Link)
    → all_connect enabled returns_ok ≡ true
    → let (steps, result) = example_connect enabled returns_ok (λ l. true) in
      let (steps', result') = example_disconnect enabled (λ l. true) in
      is_registered l (steps ++ steps') false ≡ (enabled l && (is_link l thread || is_link l ppp))
unfolding example_connect example_disconnect
example_disconnect_lem enabled returns_ok l h = elim l [
  | ethernet ↦ ground arith
  | wifi ↦ ground arith
  | thread ↦ ground arith
  | ppp ↦ ground arith
]
