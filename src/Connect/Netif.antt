-- ===== src/Connect/Netif.antt =====
-- The interfaces in esp32_cam/protocol_examples_common/connect.c: which are ours, and their printing.
pub mod Links
pub mod Ours
use teleop_led_benchmarks.Common.{
  ℕ, zero, suc, ◌+◌, ◌-◌, ◌%◌, ◌^◌, Bool, true, false, ◌&&◌, Option, none, some, List, [], ◌∷◌,
  ◌++◌, map, Bytes, codes, length, ◌==◌, if◌then◌else◌,
}
use teleop_led_benchmarks.Connect.Selection.{
  Ip6Type, unknown, global, link_local, site_local, unique_local, ipv4_mapped_ipv6,
}

-- Whether `strncmp(a, b, n) == 0`, for strings without their terminating zeros.
unfoldable pub strncmp_equal : ℕ → Bytes → Bytes → Bool
strncmp_equal zero a b = true
strncmp_equal (suc n) [] [] = true
strncmp_equal (suc n) [] (y ∷ b) = false
strncmp_equal (suc n) (x ∷ a) [] = false
strncmp_equal (suc n) (x ∷ a) (y ∷ b) = x == y && strncmp_equal n a b

-- `example_is_our_netif`, by the interface's description; `strlen(prefix) - 1` is a `size_t`.
unfoldable pub is_our_netif : Bytes → Bytes → Bool
unfolding strncmp_equal
is_our_netif prefix desc = strncmp_equal ((length prefix + (2 ^ 32 - 1)) % 2 ^ 32) prefix desc

-- Whether `strcmp(a, b) == 0`, for strings without their terminating zeros.
unfoldable pub strcmp_equal : Bytes → Bytes → Bool
strcmp_equal [] [] = true
strcmp_equal [] (y ∷ b) = false
strcmp_equal (x ∷ a) [] = false
strcmp_equal (x ∷ a) (y ∷ b) = x == y && strcmp_equal a b

-- An interface: its description, what `esp_netif_get_ip_info` finds (an error is `none`), and its
-- IPv6 addresses with their types.
pub record Netif : Type 0 where
  pub desc : Bytes
  pub ip_info : Option ℕ
  pub all_ip6 : List (ℕ × Ip6Type)

pub data Line : Type 0 where
  connected_to : Bytes → Line
  ipv4_address : ℕ → Line
  ipv6_address : ℕ → Bytes → Line

-- `example_ipv6_addr_types_to_str`.
abbrev pub ipv6_addr_types_to_str : Ip6Type → Bytes
ipv6_addr_types_to_str unknown = codes "ESP_IP6_ADDR_IS_UNKNOWN"
ipv6_addr_types_to_str global = codes "ESP_IP6_ADDR_IS_GLOBAL"
ipv6_addr_types_to_str link_local = codes "ESP_IP6_ADDR_IS_LINK_LOCAL"
ipv6_addr_types_to_str site_local = codes "ESP_IP6_ADDR_IS_SITE_LOCAL"
ipv6_addr_types_to_str unique_local = codes "ESP_IP6_ADDR_IS_UNIQUE_LOCAL"
ipv6_addr_types_to_str ipv4_mapped_ipv6 = codes "ESP_IP6_ADDR_IS_IPV4_MAPPED_IPV6"

abbrev ip6_line : ℕ × Ip6Type → Line
ip6_line (ip, type) = ipv6_address ip (ipv6_addr_types_to_str type)

-- The lines of one interface; `none` is an abort.
print_ip4 : Bool → Option ℕ → List Line → Option (List Line)
print_ip4 false ip rest = some rest
print_ip4 true none rest = none
print_ip4 true (some ip) rest = some (ipv4_address ip ∷ rest)

print_more : Option (List Line) → Bytes → Option (List Line) → Option (List Line)
print_more none desc rest = none
print_more (some lines) desc none = none
print_more (some lines) desc (some rest) = some (connected_to desc ∷ lines ++ rest)

-- `print_all_ips_tcpip` over the interfaces, with the configured IP versions.
unfoldable pub print_all_ips : Bool → Bool → Bytes → List Netif → Option (List Line)
unfolding print_ip4 print_more is_our_netif
print_all_ips ipv4 ipv6 prefix [] = some []
print_all_ips ipv4 ipv6 prefix (n ∷ netifs) =
    let rest = print_all_ips ipv4 ipv6 prefix netifs in
    let ip6 = if ipv6 then map ip6_line n.all_ip6 else [] in
    if is_our_netif prefix n.desc
    then print_more (print_ip4 ipv4 n.ip_info ip6) n.desc rest
    else rest

-- `get_example_netif_from_desc`: `esp_netif_find_if` tries the interfaces in order.
unfoldable pub get_example_netif_from_desc : Bytes → List Netif → Option Netif
unfolding strcmp_equal
get_example_netif_from_desc desc [] = none
get_example_netif_from_desc desc (n ∷ netifs) =
    let rest = get_example_netif_from_desc desc netifs in
    if strcmp_equal desc n.desc then some n else rest
