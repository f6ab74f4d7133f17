-- ===== src/Desktop/Utils.antt =====
-- desktop_app/src/utils.hpp and utils.cpp.
use teleop_led_benchmarks.Common.{◌≡◌, refl, Option, none, some}
use teleop_led_benchmarks.Common.Int.{ℤ}
use teleop_led_benchmarks.Desktop.State.{Outcome, threw}

-- The template `callV1`, instantiated with a callable; a call may throw.
unfoldable pub call_v1 : ℤ → ℤ → (ℤ → ℤ → Outcome ℤ) → Outcome ℤ
call_v1 arg1 arg2 f = f arg1 arg2

-- `callV2`: an empty `std::function` is `none`, and calling it throws `bad_function_call`.
unfoldable pub call_v2 : ℤ → ℤ → Option (ℤ → ℤ → Outcome ℤ) → Outcome ℤ
call_v2 arg1 arg2 none = threw
call_v2 arg1 arg2 (some f) = f arg1 arg2

-- Both make the same call.
call_v2-some :
    (arg1 arg2 : ℤ) (f : ℤ → ℤ → Outcome ℤ) → call_v2 arg1 arg2 (some f) ≡ call_v1 arg1 arg2 f
unfolding call_v1 call_v2
call_v2-some arg1 arg2 f = refl
