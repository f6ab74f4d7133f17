-- ===== src/Uri/Tables/Classes.antt =====
-- Which bytes each escape table marks, by the character classes that the source's comments name.
use teleop_led_benchmarks.Common.{
  ℕ, zero, suc, ◌<◌, ◌≡◌, ◌≢◌, refl, Bool, true, false, not, ◌||◌, ◌&&◌, some, [], ◌∷◌, Bytes,
  codes, arith, leb, ◌==◌, if◌then◌else◌, passes_first, at_first,
}
use mathlib.Core.Path.{subst}
use mathlib.Core.Option.{some-injective}
use teleop_led_benchmarks.Uri.Tables.{
  Table, uri, args, uri_component, html, refresh, memcached, escape_map, needs_escape,
}

one_of : Bytes → ℕ → Bool
one_of [] c = false
one_of (x ∷ xs) c = c == x || one_of xs c

is_letter : ℕ → Bool
is_letter c = (leb b'A' c && leb c b'Z') || (leb b'a' c && leb c b'z')

-- RFC 3986, unreserved: letters, digits, and four marks.
unfoldable pub is_unreserved : ℕ → Bool
unfolding is_letter one_of
is_unreserved c = is_letter c || (leb b'0' c && leb c b'9') || one_of (codes "-._~") c

is_control : ℕ → Bool
is_control c = leb c 0x1f

-- %00-%1F, %7F-%FF, and the printable characters that no URI holds unescaped.
not_in_uris : ℕ → Bool
unfolding is_control one_of
not_in_uris c = is_control c || leb 0x7f c || one_of (codes " \"<>\\^`{|}") c

-- The bytes to be escaped for each type but `NGX_ESCAPE_REFRESH`.
unfoldable pub must_escape : ℕ → ℕ → Bool
unfolding is_unreserved not_in_uris
must_escape zero c = not_in_uris c || one_of (codes "#%?") c
must_escape (suc zero) c = not_in_uris c || one_of (codes "#%&+;?") c
must_escape (suc (suc zero)) c = not (is_unreserved c)
must_escape (suc (suc (suc zero))) c = not_in_uris c || one_of (codes "#%'") c
must_escape (suc (suc (suc (suc type)))) c = is_control c || one_of (codes " %") c

-- Whether two tests agree.
abbrev agrees : Bool → Bool → Bool
agrees a b = if a then b else not b

agrees_eq : (a b : Bool) → agrees a b ≡ true → a ≡ b
agrees_eq a b h = ground arith

abbrev agree_on : Table → ℕ → ℕ → Bool
agree_on t type c = agrees (needs_escape t c) (must_escape type c)

module _ (t : Table) (type : ℕ) where
  by_table :
      passes_first (agree_on t type) 256 ≡ true
      → (c : ℕ) → c < 256
      → needs_escape t c ≡ must_escape type c
  by_table table c h =
      agrees_eq (needs_escape t c) (must_escape type c) (at_first (agree_on t type) table c h)

uri_table : passes_first (agree_on uri 0) 256 ≡ true
unfolding passes_first needs_escape must_escape
uri_table = refl

args_table : passes_first (agree_on args 1) 256 ≡ true
unfolding passes_first needs_escape must_escape
args_table = refl

component_table : passes_first (agree_on uri_component 2) 256 ≡ true
unfolding passes_first needs_escape must_escape
component_table = refl

html_table : passes_first (agree_on html 3) 256 ≡ true
unfolding passes_first needs_escape must_escape
html_table = refl

memcached_table :
    (type : ℕ) → passes_first (agree_on memcached (suc (suc (suc (suc type))))) 256 ≡ true
unfolding passes_first needs_escape must_escape
memcached_table type = refl

-- For every type with a table but NGX_ESCAPE_REFRESH (4), a byte is escaped exactly when it is in
-- the class of that type: for NGX_ESCAPE_URI_COMPONENT, when it is not unreserved in RFC 3986.
pub needs_escape-must_escape :
    (type c : ℕ) (t : Table)
    → escape_map type ≡ some t
    → type ≢ 4
    → c < 256
    → needs_escape t c ≡ must_escape type c
unfolding escape_map
needs_escape-must_escape zero c t e h lt =
    subst (λ w. needs_escape w c ≡ must_escape 0 c) (some-injective _ t e)
      (by_table uri 0 uri_table c lt)
needs_escape-must_escape (suc zero) c t e h lt =
    subst (λ w. needs_escape w c ≡ must_escape 1 c) (some-injective _ t e)
      (by_table args 1 args_table c lt)
needs_escape-must_escape (suc (suc zero)) c t e h lt =
    subst (λ w. needs_escape w c ≡ must_escape 2 c) (some-injective _ t e)
      (by_table uri_component 2 component_table c lt)
needs_escape-must_escape (suc (suc (suc zero))) c t e h lt =
    subst (λ w. needs_escape w c ≡ must_escape 3 c) (some-injective _ t e)
      (by_table html 3 html_table c lt)
needs_escape-must_escape (suc (suc (suc (suc zero)))) c t e h lt = absurd (h refl)
needs_escape-must_escape (suc (suc (suc (suc (suc zero))))) c t e h lt =
    subst (λ w. needs_escape w c ≡ must_escape 5 c) (some-injective _ t e)
      (by_table memcached 5 (memcached_table 1) c lt)
needs_escape-must_escape (suc (suc (suc (suc (suc (suc zero)))))) c t e h lt =
    subst (λ w. needs_escape w c ≡ must_escape 6 c) (some-injective _ t e)
      (by_table memcached 6 (memcached_table 2) c lt)
needs_escape-must_escape (suc (suc (suc (suc (suc (suc (suc type))))))) c t e h lt = cc

-- The refresh table marks the tilde and not the closing brace.
refresh_tilde : (needs_escape refresh b'~' ≡ true) × (needs_escape refresh b'}' ≡ false)
unfolding needs_escape
refresh_tilde = (refl, refl)
