-- ===== src/Desktop/Main.antt =====
-- desktop_app/main.cpp: the command line.
pub mod Usage
use Prim.Native.String.{String}
use text.Mathlib.Text.{◌==◌ as str_eq}
use text.Mathlib.TextEquality.{eq_iff}
use teleop_led_benchmarks.Common.{
  ℕ, ◌+◌, ◌≡◌, ◌≢◌, ◌↔◌, ◌⊎◌, inl, inr, refl, Bool, true, false, Option, none, some, List, [], ◌∷◌,
  arith, Bool-cases, if◌then◌else◌,
}
use teleop_led_benchmarks.Desktop.State.{ConnectionType, web_socket, custom_tcp}

-- Whether `runApp` is called and with which connection type, and the exit code of `main`.
pub record Exit : Type 0 where
  pub ran : Option ConnectionType
  pub code : ℕ

choose : String → Exit
choose conn_str =
    if str_eq conn_str "--websocket"
    then record { ran = some web_socket; code = 0 }
    else if str_eq conn_str "--customTcp"
    then record { ran = some custom_tcp; code = 0 }
    else record { ran = none; code = 1 }

-- `main(argc, argv)`, where runApp returns; the list is `argv`, the program's name first.
unfoldable pub main : List String → Exit
unfolding choose
main [] = record { ran = none; code = 0 }
main (program ∷ []) = record { ran = none; code = 0 }
main (program ∷ conn_str ∷ []) = choose conn_str
main (program ∷ conn_str ∷ extra ∷ rest) = record { ran = none; code = 0 }
