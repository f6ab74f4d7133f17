-- ===== src/Connect/Netif/Links.antt =====
-- The interfaces of the four links: EXAMPLE_NETIF_DESC_... and get_example_netif of
-- esp32_cam/protocol_examples_common/include/protocol_examples_common.h, with the printing of
-- connect.c.
use teleop_led_benchmarks.Common.{
  ◌≡◌, refl, ap, Bool, true, false, ◌||◌, Option, none, some, List, [], ◌∷◌, arith, Bytes, codes,
  if◌then◌else◌, Bool-cases, inl, inr,
}
use teleop_led_benchmarks.Connect.FrontEnd.{Link, ethernet, wifi, thread, ppp}
use teleop_led_benchmarks.Connect.FrontEnd.Order.{is_link}
use teleop_led_benchmarks.Connect.Netif.{
  Line, strcmp_equal, is_our_netif, Netif, print_all_ips, get_example_netif_from_desc,
}
use teleop_led_benchmarks.Connect.Netif.Ours.{Names, our_descriptions, print_all_ips-Names}

-- EXAMPLE_NETIF_DESC_ETH, EXAMPLE_NETIF_DESC_STA, EXAMPLE_NETIF_DESC_THREAD, EXAMPLE_NETIF_DESC_PPP.
abbrev pub netif_desc : Link → Bytes
netif_desc ethernet = codes "example_netif_eth"
netif_desc wifi = codes "example_netif_sta"
netif_desc thread = codes "example_netif_thread"
netif_desc ppp = codes "example_netif_ppp"

-- `get_example_netif()`: the first link that the configuration enables, in this order; with none the
-- macro is not defined.
abbrev pub default_link : (Link → Bool) → Option Link
default_link enabled =
    if enabled ethernet
    then some ethernet
    else if enabled wifi
    then some wifi
    else if enabled thread
    then some thread
    else if enabled ppp
    then some ppp
    else none

find_link : Option Link → List Netif → Option Netif
find_link none netifs = none
find_link (some l) netifs = get_example_netif_from_desc (netif_desc l) netifs

unfoldable pub get_example_netif : (Link → Bool) → List Netif → Option Netif
unfolding find_link
get_example_netif enabled netifs = find_link (default_link enabled) netifs

-- `example_print_all_netif_ips` for a link's interface.
unfoldable pub print_link_ips : Bool → Bool → Link → List Netif → Option (List Line)
print_link_ips ipv4 ipv6 l netifs = print_all_ips ipv4 ipv6 (netif_desc l) netifs

is_our_netif-netif_desc : (l l' : Link) → is_our_netif (netif_desc l) (netif_desc l') ≡ is_link l l'
unfolding is_our_netif
is_our_netif-netif_desc ethernet ethernet = refl
is_our_netif-netif_desc ethernet wifi = refl
is_our_netif-netif_desc ethernet thread = refl
is_our_netif-netif_desc ethernet ppp = refl
is_our_netif-netif_desc wifi ethernet = refl
is_our_netif-netif_desc wifi wifi = refl
is_our_netif-netif_desc wifi thread = refl
is_our_netif-netif_desc wifi ppp = refl
is_our_netif-netif_desc thread ethernet = refl
is_our_netif-netif_desc thread wifi = refl
is_our_netif-netif_desc thread thread = refl
is_our_netif-netif_desc thread ppp = refl
is_our_netif-netif_desc ppp ethernet = refl
is_our_netif-netif_desc ppp wifi = refl
is_our_netif-netif_desc ppp thread = refl
is_our_netif-netif_desc ppp ppp = refl

strcmp_equal-netif_desc : (l l' : Link) → strcmp_equal (netif_desc l) (netif_desc l') ≡ is_link l l'
unfolding strcmp_equal
strcmp_equal-netif_desc ethernet ethernet = refl
strcmp_equal-netif_desc ethernet wifi = refl
strcmp_equal-netif_desc ethernet thread = refl
strcmp_equal-netif_desc ethernet ppp = refl
strcmp_equal-netif_desc wifi ethernet = refl
strcmp_equal-netif_desc wifi wifi = refl
strcmp_equal-netif_desc wifi thread = refl
strcmp_equal-netif_desc wifi ppp = refl
strcmp_equal-netif_desc thread ethernet = refl
strcmp_equal-netif_desc thread wifi = refl
strcmp_equal-netif_desc thread thread = refl
strcmp_equal-netif_desc thread ppp = refl
strcmp_equal-netif_desc ppp ethernet = refl
strcmp_equal-netif_desc ppp wifi = refl
strcmp_equal-netif_desc ppp thread = refl
strcmp_equal-netif_desc ppp ppp = refl

is_link-eq : (l l' : Link) → is_link l l' ≡ true → netif_desc l' ≡ netif_desc l
is_link-eq l l' h = ground arith

-- The interfaces belong to these links, in order.
abbrev pub BelongTo : List Netif → List Link → Type 0
BelongTo [] [] = Unit
BelongTo [] (l ∷ ls) = ⊥
BelongTo (n ∷ ns) [] = ⊥
BelongTo (n ∷ ns) (l ∷ ls) = (n.desc ≡ netif_desc l) × BelongTo ns ls

-- The description of a link, as often as the link occurs.
abbrev pub own : Link → List Link → List Bytes
own l [] = []
own l (l' ∷ ls) = let rest = own l ls in if is_link l l' then netif_desc l ∷ rest else rest

abbrev occurs : Link → List Link → Bool
occurs l [] = false
occurs l (l' ∷ ls) = is_link l l' || occurs l ls

our_descriptions-own :
    (l : Link) (netifs : List Netif) (ls : List Link)
    → BelongTo netifs ls
    → our_descriptions (netif_desc l) netifs ≡ own l ls
our_descriptions-own l [] [] b = refl
our_descriptions-own l [] (l' ∷ ls) b = absurd b
our_descriptions-own l (n ∷ netifs) [] b = absurd b
our_descriptions-own l (n ∷ netifs) (l' ∷ ls) (d, b) = elim (Bool-cases (is_link l l')) [
  | inl same ↦
      rw
        (
          d,
          is_our_netif-netif_desc l l',
          same,
          our_descriptions-own l netifs ls b,
          is_link-eq l l' same,
        )
        refl
  | inr other ↦ rw (d, is_our_netif-netif_desc l l', other) (our_descriptions-own l netifs ls b)
]

-- The description of what was found.
abbrev desc_of : Option Netif → Option Bytes
desc_of none = none
desc_of (some n) = some n.desc

found :
    (l : Link) (netifs : List Netif) (ls : List Link)
    → BelongTo netifs ls
    → desc_of (get_example_netif_from_desc (netif_desc l) netifs)
      ≡ (if occurs l ls then some (netif_desc l) else none)
unfolding get_example_netif_from_desc
found l [] [] b = refl
found l [] (l' ∷ ls) b = absurd b
found l (n ∷ netifs) [] b = absurd b
found l (n ∷ netifs) (l' ∷ ls) (d, b) = elim (Bool-cases (is_link l l')) [
  | inl same ↦ rw (d, strcmp_equal-netif_desc l l', same) (ap some (is_link-eq l l' same))
  | inr other ↦ rw (d, strcmp_equal-netif_desc l l', other) (found l netifs ls b)
]

-- When every interface belongs to a link, what is printed for a link names one interface for every
-- one of the link, under the link's description, or is an abort.
print_link_ips-Names :
    (ipv4 ipv6 : Bool) (l : Link) (netifs : List Netif) (ls : List Link)
    → BelongTo netifs ls
    → Names (own l ls) (print_link_ips ipv4 ipv6 l netifs)
unfolding print_link_ips
print_link_ips-Names ipv4 ipv6 l netifs ls b =
    rw⁻¹ (our_descriptions-own l netifs ls b) (print_all_ips-Names ipv4 ipv6 (netif_desc l) netifs)

-- When every interface belongs to a link and the default interface is link l's, `get_example_netif`
-- finds an interface of l if there is one, and nothing otherwise.
get_example_netif-found :
    (enabled : Link → Bool) (l : Link) (netifs : List Netif) (ls : List Link)
    → default_link enabled ≡ some l
    → BelongTo netifs ls
    → desc_of (get_example_netif enabled netifs)
      ≡ (if occurs l ls then some (netif_desc l) else none)
unfolding get_example_netif find_link
get_example_netif-found enabled l netifs ls e b = rw e (found l netifs ls b)
