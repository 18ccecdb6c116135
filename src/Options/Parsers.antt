-- ===== src/Options/Parsers.antt =====
-- What the parsers of programs/options.c accept.
use vmnet_helper.Prelude.{
  ℕ, ◌≤◌, ◌≡◌, ◌⊎◌, false, ◌<>◌, List, ◌∷◌, String, done, exited, arith, leb, All, if◌then◌else◌,
}
use vmnet_helper.Libc.{strlen, ℤ, pos, negsuc, codes, strtol, long_max}
use vmnet_helper.Libc.Decimal.{IsDigit, decimal, strtol-decimal}
use vmnet_helper.Options.{
  int_max, sun_path_max, out_of_range, magnitude, not_positive, parse_fd, parse_socket,
  parse_stats_interval, parse_operation_mode, vmnet_shared_mode, vmnet_bridged_mode,
  vmnet_host_mode,
}

magnitude-le : (z : ℤ) (max : ℕ) → out_of_range z max ≡ false → magnitude z ≤ max
magnitude-le (pos n) max h = ground arith
magnitude-le (negsuc n) max h = omega arith

not_positive-lt : (z : ℤ) → not_positive z ≡ false → 1 ≤ magnitude z
not_positive-lt (pos n) h = ground arith
not_positive-lt (negsuc n) h = cc

-- The number that `parse_fd` goes on with fits an `int`.
pub parse_fd-le : (arg : String) (n : ℕ) → parse_fd arg ≡ done n → n ≤ int_max
unfolding parse_fd
parse_fd-le arg n h = ground (arith, magnitude-le (strtol (codes arg)).value int_max)

pub parse_stats_interval-le :
    (arg : String) (n : ℕ) → parse_stats_interval arg ≡ done n → (1 ≤ n) × (n ≤ int_max)
unfolding parse_stats_interval
parse_stats_interval-le arg n h =
    let z = (strtol (codes arg)).value in
    (ground (arith, not_positive-lt z), ground (arith, magnitude-le z int_max))

pub parse_socket-le : (arg s : String) → parse_socket arg ≡ done s → strlen s ≤ sun_path_max
unfolding parse_socket
parse_socket-le arg s h = ground arith

-- If the argument is one or more digits, `parse_fd` goes on with the number they write when it is at most
-- INT_MAX, and exits with status 1 and its message when it is larger.
pub parse_fd-decimal :
    (arg : String) (c : ℕ) (s : List ℕ)
    → codes arg ≡ c ∷ s
    → All IsDigit (c ∷ s)
    → parse_fd arg ≡ (
        if leb (decimal 0 (c ∷ s)) int_max
        then done (decimal 0 (c ∷ s))
        else exited 1 (
            if leb (decimal 0 (c ∷ s)) long_max
            then "Invalid fd '" <> arg <> "'"
            else "Invalid fd '" <> arg <> "': errno"))
unfolding parse_fd
parse_fd-decimal arg c s e h = rw (e, strtol-decimal c s h) (ground arith)

pub parse_operation_mode_known :
    (arg name : String) (m : ℕ)
    → parse_operation_mode arg name ≡ done m
    → (m ≡ vmnet_shared_mode) ⊎ ((m ≡ vmnet_bridged_mode) ⊎ (m ≡ vmnet_host_mode))
unfolding parse_operation_mode
parse_operation_mode_known arg name m h = ground arith
