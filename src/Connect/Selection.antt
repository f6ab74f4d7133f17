-- ===== src/Connect/Selection.antt =====
-- The choices of the configuration that macros of esp32_cam/protocol_examples_common/include turn
-- into values: those of protocol_examples_common.h for a Wi-Fi scan, and the preferred type of IPv6
-- address of example_common_private.h.
use teleop_led_benchmarks.Common.{
  ℕ, ◌≡◌, ◌==◌, ◌↔◌, ap, Bool, true, false, Option, none, some, List, [], ◌∷◌, arith, if◌then◌else◌,
  Bool-cases, inl, inr, ◌++◌, refl,
}
use teleop_led_benchmarks.Common.Int.{ℤ}

pub data ScanMethod : Type 0 where
  fast_scan all_channel_scan : ScanMethod

pub data SortMethod : Type 0 where
  by_signal by_security : SortMethod

pub data AuthMode : Type 0 where
  auth_open wep wpa_psk wpa2_psk wpa_wpa2_psk wpa2_enterprise wpa3_psk wpa2_wpa3_psk wapi_psk :
      AuthMode

-- `esp_ip6_addr_type_t`.
pub data Ip6Type : Type 0 where
  unknown global link_local site_local unique_local ipv4_mapped_ipv6 : Ip6Type

-- A chain of `#if`, `#elif` and `#endif`: without an enabled option the macro is not defined.
unfoldable pub first_enabled : {A : Type 0} → (A → Bool) → List A → Option A
first_enabled enabled [] = none
first_enabled enabled (x ∷ xs) =
    let rest = first_enabled enabled xs in if enabled x then some x else rest

-- EXAMPLE_WIFI_SCAN_METHOD.
abbrev pub scan_method : (ScanMethod → Bool) → Option ScanMethod
scan_method enabled = first_enabled enabled (fast_scan ∷ all_channel_scan ∷ [])

-- EXAMPLE_WIFI_CONNECT_AP_SORT_METHOD.
abbrev pub sort_method : (SortMethod → Bool) → Option SortMethod
sort_method enabled = first_enabled enabled (by_signal ∷ by_security ∷ [])

-- EXAMPLE_WIFI_SCAN_AUTH_MODE_THRESHOLD.
abbrev pub auth_mode_threshold : (AuthMode → Bool) → Option AuthMode
auth_mode_threshold enabled = first_enabled enabled (
    auth_open ∷ wep ∷ wpa_psk ∷ wpa2_psk ∷ wpa_wpa2_psk ∷ wpa2_enterprise ∷ wpa3_psk ∷ wpa2_wpa3_psk
    ∷ wapi_psk ∷ [])

-- EXAMPLE_CONNECT_PREFERRED_IPV6_TYPE.
abbrev pub preferred_ipv6_type : (Ip6Type → Bool) → Option Ip6Type
preferred_ipv6_type enabled =
    first_enabled enabled (link_local ∷ global ∷ site_local ∷ unique_local ∷ [])

-- A number for each type, to tell them apart.
abbrev code : Ip6Type → ℕ
code unknown = 0
code global = 1
code link_local = 2
code site_local = 3
code unique_local = 4
code ipv4_mapped_ipv6 = 5

is_type : Option Ip6Type → Ip6Type → Bool
is_type none t = false
is_type (some preferred) t = code t == code preferred

-- `ipv6_type == EXAMPLE_CONNECT_PREFERRED_IPV6_TYPE`, which the links' handlers test.
unfoldable pub is_preferred : (Ip6Type → Bool) → Ip6Type → Bool
unfolding is_type
is_preferred enabled t = is_type (preferred_ipv6_type enabled) t

-- The values of a configuration in which each of these macros is defined, and
-- CONFIG_EXAMPLE_WIFI_SCAN_RSSI_THRESHOLD.
pub record Selection : Type 0 where
  pub scan : ScanMethod
  pub sort : SortMethod
  pub rssi : ℤ
  pub auth_mode : AuthMode

-- Of a choice, exactly one option is enabled: here at least one, and `x` if any.
pub record Chosen {A : Type 0} (enabled : A → Bool) (x : A) : Type 0 where
  pub is_enabled : enabled x ≡ true
  pub no_other : (y : A) → enabled y ≡ true → y ≡ x

first_enabled-Chosen :
    {A : Type 0} (enabled : A → Bool) (x : A) (before behind : List A)
    → Chosen enabled x
    → first_enabled enabled (before ++ x ∷ behind) ≡ some x
unfolding first_enabled
first_enabled-Chosen enabled x [] behind c = rw c.is_enabled refl
first_enabled-Chosen enabled x (y ∷ before) behind c = elim (Bool-cases (enabled y)) [
  | inl h ↦ rw h (ap some (c.no_other y h))
  | inr h ↦ rw h (first_enabled-Chosen enabled x before behind c)
]

-- The four types that the configuration offers.
pub IsOffered : Ip6Type → Type 0
IsOffered unknown = ⊥
IsOffered global = Unit
IsOffered link_local = Unit
IsOffered site_local = Unit
IsOffered unique_local = Unit
IsOffered ipv4_mapped_ipv6 = ⊥

preferred_ipv6_type-Chosen :
    (enabled : Ip6Type → Bool) (t : Ip6Type)
    → IsOffered t
    → Chosen enabled t
    → preferred_ipv6_type enabled ≡ some t
unfolding IsOffered
preferred_ipv6_type-Chosen enabled unknown o c = absurd o
preferred_ipv6_type-Chosen enabled global o c =
    first_enabled-Chosen enabled global (link_local ∷ []) (site_local ∷ unique_local ∷ []) c
preferred_ipv6_type-Chosen enabled link_local o c =
    first_enabled-Chosen enabled link_local [] (global ∷ site_local ∷ unique_local ∷ []) c
preferred_ipv6_type-Chosen enabled site_local o c =
    first_enabled-Chosen enabled site_local (link_local ∷ global ∷ []) (unique_local ∷ []) c
preferred_ipv6_type-Chosen enabled unique_local o c =
    first_enabled-Chosen enabled unique_local (link_local ∷ global ∷ site_local ∷ []) [] c
preferred_ipv6_type-Chosen enabled ipv4_mapped_ipv6 o c = absurd o

code-injective : (t u : Ip6Type) → code t ≡ code u → t ≡ u
code-injective t u h = ground arith

-- With an offered type chosen, an address counts as preferred exactly when it is of that type.
pub is_preferred_iff :
    (enabled : Ip6Type → Bool) (t u : Ip6Type)
    → IsOffered t
    → Chosen enabled t
    → (is_preferred enabled u ≡ true) ↔ (u ≡ t)
unfolding is_preferred is_type
is_preferred_iff enabled t u o c =
    rw (preferred_ipv6_type-Chosen enabled t o c)
      ((λ h. code-injective u t (ground arith)), λ e. rw e (ground arith))
