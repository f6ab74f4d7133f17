-- ===== src/Connect/Netif/Ours.antt =====
-- Which interfaces connect.c takes for ours, and which it names when it prints their addresses.
use mathlib.Core.Bool.{true≢false}
use teleop_led_benchmarks.Common.{
  ℕ, ◌-◌, ◌^◌, ◌<◌, ◌≡◌, ◌↔◌, refl, ap, ◌∙◌, sym, Bool, true, false, List, [], ◌∷◌, ◌++◌, arith,
  Option, none, some, map, Bytes, length, length-append, if◌then◌else◌, Bool-cases, inl, inr,
}
use teleop_led_benchmarks.Connect.Selection.{Ip6Type}
use teleop_led_benchmarks.Connect.Netif.{
  strncmp_equal, strcmp_equal, get_example_netif_from_desc, is_our_netif, Netif, Line, connected_to,
  ipv4_address, ipv6_address, print_all_ips, print_ip4, print_more, ip6_line,
}

strncmp_equal-prefix :
    (k t desc : Bytes)
    → strncmp_equal (length k) (k ++ t) desc ≡ true
    → (rest : Bytes) × (desc ≡ k ++ rest)
unfolding strncmp_equal
strncmp_equal-prefix [] t desc h = (desc, refl)
strncmp_equal-prefix (x ∷ k) t [] h = absurd (true≢false (sym h))
strncmp_equal-prefix (x ∷ k) t (y ∷ desc) h =
    let (rest, e) = strncmp_equal-prefix k t desc (ground arith) in
    let same : y ≡ x = ground arith in (rest, cc)

strncmp_equal-append : (k t rest : Bytes) → strncmp_equal (length k) (k ++ t) (k ++ rest) ≡ true
unfolding strncmp_equal
strncmp_equal-append [] t rest = refl
strncmp_equal-append (x ∷ k) t rest = ground (arith, strncmp_equal-append k t rest)

is_our_netif-length :
    (k desc : Bytes) (x : ℕ)
    → length k < 2 ^ 32 - 1
    → is_our_netif (k ++ x ∷ []) desc ≡ strncmp_equal (length k) (k ++ x ∷ []) desc
unfolding is_our_netif
is_our_netif-length k desc x h =
    ap (λ n. strncmp_equal n (k ++ x ∷ []) desc) (omega (arith, length-append k (x ∷ [])))

-- An interface counts as ours exactly when its description starts with the prefix less the
-- prefix's last byte, for a prefix that is not empty and is shorter than 2 ^ 32 bytes.
pub is_our_netif_iff :
    (k desc : Bytes) (x : ℕ)
    → length k < 2 ^ 32 - 1
    → (is_our_netif (k ++ x ∷ []) desc ≡ true) ↔ ((rest : Bytes) × (desc ≡ k ++ rest))
is_our_netif_iff k desc x h = (
  (λ e. strncmp_equal-prefix k (x ∷ []) desc (sym (is_our_netif-length k desc x h) ∙ e)),
  λ (rest, e). is_our_netif-length k desc x h ∙ rw e (strncmp_equal-append k (x ∷ []) rest),
)

-- The descriptions in the lines that were printed.
abbrev pub descriptions : List Line → List Bytes
descriptions [] = []
descriptions (connected_to desc ∷ lines) = desc ∷ descriptions lines
descriptions (ipv4_address ip ∷ lines) = descriptions lines
descriptions (ipv6_address ip type ∷ lines) = descriptions lines

abbrev pub our_descriptions : Bytes → List Netif → List Bytes
our_descriptions prefix [] = []
our_descriptions prefix (n ∷ netifs) =
    let rest = our_descriptions prefix netifs in
    if is_our_netif prefix n.desc then n.desc ∷ rest else rest

descriptions-ip6 :
    (ips : List (ℕ × Ip6Type)) (rest : List Line)
    → descriptions (map ip6_line ips ++ rest) ≡ descriptions rest
descriptions-ip6 [] rest = refl
descriptions-ip6 (ip ∷ ips) rest = descriptions-ip6 ips rest

-- The lines of an interface's addresses name no interface.
IsQuiet : Option (List Line) → Type 0
IsQuiet none = Unit
IsQuiet (some lines) = (rest : List Line) → descriptions (lines ++ rest) ≡ descriptions rest

print_ip4-IsQuiet :
    (ipv4 ipv6 : Bool) (ip : Option ℕ) (ips : List (ℕ × Ip6Type))
    → IsQuiet (print_ip4 ipv4 ip (if ipv6 then map ip6_line ips else []))
unfolding IsQuiet print_ip4
print_ip4-IsQuiet false false ip ips = λ rest. refl
print_ip4-IsQuiet false true ip ips = descriptions-ip6 ips
print_ip4-IsQuiet true ipv6 none ips = tt
print_ip4-IsQuiet true false (some a) ips = λ rest. refl
print_ip4-IsQuiet true true (some a) ips = descriptions-ip6 ips

-- Nothing printed, or the lines name these interfaces.
abbrev pub Names : List Bytes → Option (List Line) → Type 0
Names descs none = Unit
Names descs (some lines) = descriptions lines ≡ descs

print_more-Names :
    (one : Option (List Line)) (desc : Bytes) (more : Option (List Line)) (descs : List Bytes)
    → IsQuiet one
    → Names descs more
    → Names (desc ∷ descs) (print_more one desc more)
unfolding IsQuiet print_more
print_more-Names none desc more descs q n = tt
print_more-Names (some lines) desc none descs q n = tt
print_more-Names (some lines) desc (some rest) descs q n = ap (λ k. desc ∷ k) (q rest ∙ n)

-- Unless it aborts, print_all_ips_tcpip names the interfaces that are ours, each once, in order.
pub print_all_ips-Names :
    (ipv4 ipv6 : Bool) (prefix : Bytes) (netifs : List Netif)
    → Names (our_descriptions prefix netifs) (print_all_ips ipv4 ipv6 prefix netifs)
unfolding print_all_ips
print_all_ips-Names ipv4 ipv6 prefix [] = refl
print_all_ips-Names ipv4 ipv6 prefix (n ∷ netifs) =
    let rest = print_all_ips-Names ipv4 ipv6 prefix netifs in
    elim (Bool-cases (is_our_netif prefix n.desc)) [
      | inl ours ↦ rw ours (
          print_more-Names (print_ip4 ipv4 n.ip_info (if ipv6 then map ip6_line n.all_ip6 else []))
            n.desc _ _ (print_ip4-IsQuiet ipv4 ipv6 n.ip_info n.all_ip6) rest)
      | inr other ↦ rw other rest
    ]

strcmp_equal-eq : (a b : Bytes) → strcmp_equal a b ≡ true → a ≡ b
unfolding strcmp_equal
strcmp_equal-eq [] [] h = refl
strcmp_equal-eq [] (y ∷ b) h = absurd (true≢false (sym h))
strcmp_equal-eq (x ∷ a) [] h = absurd (true≢false (sym h))
strcmp_equal-eq (x ∷ a) (y ∷ b) h =
    let same : x ≡ y = ground arith in let rest = strcmp_equal-eq a b (ground arith) in cc

-- The interface that get_example_netif_from_desc finds has that description, and is ours for it as a
-- prefix.
get_example_netif_from_desc-ours :
    (k : Bytes) (x : ℕ) (netifs : List Netif) (n : Netif)
    → length k < 2 ^ 32 - 1
    → get_example_netif_from_desc (k ++ x ∷ []) netifs ≡ some n
    → (n.desc ≡ k ++ x ∷ []) × (is_our_netif (k ++ x ∷ []) n.desc ≡ true)
unfolding get_example_netif_from_desc
get_example_netif_from_desc-ours k x [] n h e = cc
get_example_netif_from_desc-ours k x (m ∷ netifs) n h e =
    elim (Bool-cases (strcmp_equal (k ++ x ∷ []) m.desc)) [
      | inl same ↦
          let d = strcmp_equal-eq (k ++ x ∷ []) m.desc same in
          let here : m ≡ n = ground arith in
          let d' : n.desc ≡ k ++ x ∷ [] = cc in (d', (is_our_netif_iff k n.desc x h).1 (x ∷ [], d'))
      | inr other ↦ get_example_netif_from_desc-ours k x netifs n h (ground arith)
    ]
