-- ===== src/Firmware/HostPort.antt =====
-- HOST_PORT of esp32_cam/main/main.cpp, which is read from the configuration before `app_main` runs.
use teleop_led_benchmarks.Common.{
  ℕ, ◌+◌, ◌<◌, ◌^◌, ◌≡◌, ap, Option, none, some, Returns, arith, Bytes,
}
use teleop_led_benchmarks.Common.Int.{ℤ, pos, negsuc, to_uint16}

port_of : Option ℤ → Option ℕ
port_of none = none
port_of (some n) = some (to_uint16 n)

-- `std::stoi` is an argument; `none` is its exception, which ends the program.
unfoldable pub host_port : (Bytes → Option ℤ) → Bytes → Option ℕ
unfolding port_of
host_port stoi text = port_of (stoi text)

to_uint16-bound : (n : ℤ) → to_uint16 n < 2 ^ 16
to_uint16-bound (pos n) = omega arith
to_uint16-bound (negsuc n) = omega arith

-- A number gives a port, which is the number where that is one.
host_port-bound :
    (stoi : Bytes → Option ℤ) (text : Bytes) (n : ℤ)
    → stoi text ≡ some n
    → Returns (host_port stoi text) (λ p. p < 2 ^ 16)
unfolding host_port port_of
host_port-bound stoi text n e = rw e (to_uint16-bound n)

host_port-small :
    (stoi : Bytes → Option ℤ) (text : Bytes) (n : ℕ)
    → stoi text ≡ some (pos n)
    → n < 2 ^ 16
    → host_port stoi text ≡ some n
unfolding host_port port_of
host_port-small stoi text n e h = rw e (ap some (omega arith))

-- A number that is too large is taken modulo 2 ^ 16.
host_port-wraps :
    (stoi : Bytes → Option ℤ) (text : Bytes) (n : ℕ)
    → stoi text ≡ some (pos (n + 2 ^ 16))
    → n < 2 ^ 16
    → host_port stoi text ≡ some n
unfolding host_port port_of
host_port-wraps stoi text n e h = rw e (ap some (omega arith))
