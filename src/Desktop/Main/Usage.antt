-- ===== src/Desktop/Main/Usage.antt =====
-- Which command lines start the application.
use Prim.Native.String.{String}
use text.Mathlib.TextEquality.{eq_iff}
use teleop_led_benchmarks.Common.{◌≡◌, ◌≢◌, ◌↔◌, refl, some, List, [], ◌∷◌, arith}
use teleop_led_benchmarks.Desktop.State.{ConnectionType, web_socket, custom_tcp}
use teleop_led_benchmarks.Desktop.Main.{choose, main}

-- The flag of a connection type, in the usage text.
abbrev pub flag : ConnectionType → String
flag web_socket = "--websocket"
flag custom_tcp = "--customTcp"

-- The program runs the application with a connection type if its one argument is that type's flag.
main-flag :
    (c : ConnectionType) (program : String)
    → main (program ∷ flag c ∷ []) ≡ record { ran = some c; code = 0 }
unfolding main
main-flag web_socket program = refl
main-flag custom_tcp program = refl

choose-ran :
    (conn_str : String) (c : ConnectionType) → (choose conn_str).ran ≡ some c → conn_str ≡ flag c
unfolding choose
choose-ran conn_str web_socket e =
    ground (arith, eq_iff conn_str "--websocket", eq_iff conn_str "--customTcp")
choose-ran conn_str custom_tcp e =
    ground (arith, eq_iff conn_str "--websocket", eq_iff conn_str "--customTcp")

choose-failed :
    (conn_str : String) → (choose conn_str).code ≡ 1 → (c : ConnectionType) → conn_str ≢ flag c
unfolding choose
choose-failed conn_str e web_socket =
    ground (arith, eq_iff conn_str "--websocket", eq_iff conn_str "--customTcp")
choose-failed conn_str e custom_tcp =
    ground (arith, eq_iff conn_str "--websocket", eq_iff conn_str "--customTcp")

choose-fails :
    (conn_str : String)
    → conn_str ≢ "--websocket"
    → conn_str ≢ "--customTcp"
    → (choose conn_str).code ≡ 1
unfolding choose
choose-fails conn_str h k =
    ground (arith, eq_iff conn_str "--websocket", eq_iff conn_str "--customTcp")

main-ran :
    (argv : List String) (c : ConnectionType)
    → (main argv).ran ≡ some c
    → (program : String) × (argv ≡ program ∷ flag c ∷ [])
unfolding main
main-ran [] c e = cc
main-ran (program ∷ []) c e = cc
main-ran (program ∷ conn_str ∷ []) c e = (program, rw (choose-ran conn_str c e))
main-ran (program ∷ conn_str ∷ extra ∷ rest) c e = cc

main-failed :
    (argv : List String)
    → (main argv).code ≡ 1
    → (program : String) × (conn_str : String) × (argv ≡ program ∷ conn_str ∷ [])
      × ((c : ConnectionType) → conn_str ≢ flag c)
unfolding main
main-failed [] e = absurd (omega arith)
main-failed (program ∷ []) e = absurd (omega arith)
main-failed (program ∷ conn_str ∷ []) e = (program, conn_str, refl, choose-failed conn_str e)
main-failed (program ∷ conn_str ∷ extra ∷ rest) e = absurd (omega arith)

main-fails :
    (program conn_str : String)
    → ((c : ConnectionType) → conn_str ≢ flag c)
    → (main (program ∷ conn_str ∷ [])).code ≡ 1
unfolding main
main-fails program conn_str h = choose-fails conn_str (h web_socket) (h custom_tcp)

-- The program runs the application with a connection type exactly when its one argument is the
-- flag of that type; it exits with 1 exactly when its one argument is no such flag.
pub main_lem :
    (argv : List String)
    → ((c : ConnectionType)
        → ((main argv).ran ≡ some c) ↔ ((program : String) × (argv ≡ program ∷ flag c ∷ [])))
      × (((main argv).code ≡ 1) ↔ (
          (program : String) × (conn_str : String) × (argv ≡ program ∷ conn_str ∷ [])
          × ((c : ConnectionType) → conn_str ≢ flag c)))
main_lem argv = (
  (λ c. (main-ran argv c, λ (program, e). rw (e, main-flag c program) refl)),
  (main-failed argv, λ (program, conn_str, e, h). rw e (main-fails program conn_str h)),
)
