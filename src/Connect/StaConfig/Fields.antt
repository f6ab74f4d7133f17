-- ===== src/Connect/StaConfig/Fields.antt =====
-- What the station's configuration holds of a line of credentials, and of the console's arguments.
use teleop_led_benchmarks.Common.{
  ℕ, zero, suc, ◌+◌, ◌-◌, ◌≤◌, ◌<◌, ◌≡◌, ◌≢◌, refl, sym, ◌∙◌, Option, some, [], ◌∷◌, ◌++◌, arith,
  Bytes, length, length-append, Lacks, All-append,
}
use teleop_led_benchmarks.Common.Cstring.{
  take, take-all, cstr, fgets, strlcpy, length-take-le, strncpy-length, cstr-Lacks,
  fgets_bytes-line, fgets_bytes-full, cstr-strncpy, strtok_r-delim, strtok_r-whole,
  drop_last-append,
}
use teleop_led_benchmarks.Connect.Selection.{Selection}
use teleop_led_benchmarks.Connect.StaConfig.{
  StaConfig, ssid_size, password_size, read, read_credentials, console_config, split_line,
  configured_credentials,
}

-- A word of the line: not empty, with no zero, no line's end and no space.
pub record IsWord (w : Bytes) : Type 0 where
  pub not_empty : w ≢ []
  pub no_zero : Lacks 0 w
  pub no_end : Lacks b'\n' w
  pub no_space : Lacks b' ' w

-- What a configuration holds, up to the zeros that fill its arrays.
pub record Holds (sel : Selection) (ssid password : Bytes) (config : StaConfig) : Type 0 where
  pub ssid_held : cstr config.ssid ≡ ssid
  pub password_held : cstr config.password ≡ password
  pub scan_kept : config.scan_method ≡ sel.scan
  pub sort_kept : config.sort_method ≡ sel.sort
  pub rssi_kept : config.threshold_rssi ≡ sel.rssi
  pub auth_kept : config.threshold_auth_mode ≡ some sel.auth_mode
  pub channel_unset : config.channel ≡ 0

-- The text of a line that has been read is split into its two words.
split_line-words :
    (sel : Selection) (ssid password input : Bytes)
    → IsWord ssid
    → IsWord password
    → length ssid ≤ ssid_size
    → length password ≤ password_size
    → (split_line sel (some (ssid ++ b' ' ∷ password)) input
        ≡ read (configured_credentials sel ssid password) input)
      × Holds sel ssid password (configured_credentials sel ssid password)
unfolding split_line configured_credentials
split_line-words sel ssid password input s p ls lp = (
  rw (
    strtok_r-delim b' ' ssid password s.not_empty s.no_space,
    strtok_r-whole b' ' password p.not_empty p.no_space,
  ),
  record {
    ssid_held = cstr-strncpy ssid_size ssid s.no_zero ∙ take-all ssid_size ssid ls;
    password_held =
        cstr-strncpy password_size password p.no_zero ∙ take-all password_size password lp;
    scan_kept = refl;
    sort_kept = refl;
    rssi_kept = refl;
    auth_kept = refl;
    channel_unset = refl;
  },
)

line_of : Bytes → Bytes → Bytes
line_of ssid password = ssid ++ b' ' ∷ password

Lacks-line :
    (d : ℕ) (ssid password : Bytes)
    → d ≢ b' '
    → Lacks d ssid
    → Lacks d password
    → Lacks d (ssid ++ b' ' ∷ password)
Lacks-line d ssid password n s p = All-append _ ssid (b' ' ∷ password) s ((λ e. n (sym e)), p)

-- Two words, an SSID and a password that fit their arrays, in a line that fits the buffer of 98
-- bytes with its end, give the configuration that CONFIG_EXAMPLE_WIFI_SSID and
-- CONFIG_EXAMPLE_WIFI_PASSWORD of these values give: both are held whole, the scan and the threshold
-- are the selected ones, and the rest of the input is left.
pub read_credentials_lem :
    (sel : Selection) (ssid password rest : Bytes)
    → IsWord ssid
    → IsWord password
    → length ssid ≤ ssid_size
    → length password ≤ password_size
    → length ssid + length password < 96
    → let config = configured_credentials sel ssid password in
      (read_credentials sel ((ssid ++ b' ' ∷ password) ++ b'\n' ∷ rest) ≡ read config rest)
      × Holds sel ssid password config
unfolding read_credentials fgets
read_credentials_lem sel ssid password rest s p ls lp fits =
    let line = ssid ++ b' ' ∷ password in
    rw
      (
        fgets_bytes-line 97 line rest
            (Lacks-line b'\n' ssid password (omega arith) s.no_end p.no_end)
            (omega (arith, length-append ssid (b' ' ∷ password))),
        cstr-Lacks (line ++ b'\n' ∷ []) (
            All-append _ line (b'\n' ∷ [])
              (Lacks-line 0 ssid password (omega arith) s.no_zero p.no_zero) (omega arith, tt)),
        drop_last-append line b'\n',
      )
      (split_line-words sel ssid password rest s p ls lp)

-- An SSID and a password that fill their arrays do not fit the buffer with the line's end: the
-- password's last byte is lost, and the end stays in the input.
read_credentials_cut :
    (sel : Selection) (ssid password rest : Bytes) (c : ℕ)
    → IsWord ssid
    → IsWord password
    → c ≢ 0
    → c ≢ b'\n'
    → length ssid ≡ ssid_size
    → length password + 1 ≡ password_size
    → let config = configured_credentials sel ssid password in
      (read_credentials sel (((ssid ++ b' ' ∷ password) ++ c ∷ []) ++ b'\n' ∷ rest)
        ≡ read config (b'\n' ∷ rest))
      × Holds sel ssid password config
unfolding read_credentials fgets
read_credentials_cut sel ssid password rest c s p nz ne ls lp =
    let line = ssid ++ b' ' ∷ password in
    rw
      (
        fgets_bytes-full 97 (line ++ c ∷ []) (b'\n' ∷ rest)
            (All-append _ line (c ∷ [])
              (Lacks-line b'\n' ssid password (omega arith) s.no_end p.no_end) (ne, tt))
            (omega (arith, length-append line (c ∷ []), length-append ssid (b' ' ∷ password))),
        cstr-Lacks (line ++ c ∷ []) (
            All-append _ line (c ∷ [])
              (Lacks-line 0 ssid password (omega arith) s.no_zero p.no_zero) (nz, tt)),
        drop_last-append line c,
      )
      (split_line-words sel ssid password (b'\n' ∷ rest) s p (omega arith) (omega arith))

Lacks-take : (d n : ℕ) (s : Bytes) → Lacks d s → Lacks d (take n s)
Lacks-take d zero s h = tt
Lacks-take d (suc n) [] h = tt
Lacks-take d (suc n) (c ∷ s) (h, hs) = (h, Lacks-take d n s hs)

cstr-strlcpy :
    (size n : ℕ) (src : Bytes) → size ≡ suc n → Lacks 0 src → cstr (strlcpy size src) ≡ take n src
unfolding strlcpy
cstr-strlcpy size n src e h =
    let same : size - 1 ≡ n = omega arith in
    rw same (
      cstr-strncpy size (take n src) (Lacks-take 0 n src h)
      ∙ take-all size (take n src) (omega (arith, length-take-le n src)))

-- The console's commands fill the two arrays exactly, and keep the first 31 bytes of the SSID and
-- the first 63 of the password: an SSID of 32 bytes loses its last one.
console_config_lem :
    (ssid pass : Bytes) (channel : Option ℕ)
    → Lacks 0 ssid
    → Lacks 0 pass
    → let config = console_config ssid (some pass) channel in
      (length config.ssid ≡ ssid_size)
      × (length config.password ≡ password_size)
      × (cstr config.ssid ≡ take 31 ssid)
      × (cstr config.password ≡ take 63 pass)
      × (config.channel < 256)
unfolding console_config
console_config_lem ssid pass channel s p = (
  (unfold strlcpy in strncpy-length ssid_size (take 31 ssid)),
  (unfold strlcpy in strncpy-length password_size (take 63 pass)),
  cstr-strlcpy 32 31 ssid refl s,
  cstr-strlcpy 64 63 pass refl p,
  ground arith,
)
