-- ===== src/Runner/Processes/Ends.antt =====
-- Where the ends of the socket pair are, after `dup2` has moved them.
use vmnet_helper.Prelude.{ℕ, ◌≤◌, ◌<◌, ◌≡◌, some, arith}
use vmnet_helper.Runner.Processes.{first, second, Descriptors, helper_fd, command_fd, put}

-- The table with the pair at `a` and `b`, and then at its places.
abbrev pub paired : ℕ → ℕ → Descriptors → Descriptors
paired a b t = put b (some second) (put a (some first) t)

abbrev pub placed : ℕ → ℕ → Descriptors → Descriptors
placed a b t =
    let moved = put command_fd (paired a b t b) (paired a b t) in put helper_fd (moved a) moved

-- The ends are at 3 and 4, and no descriptor above 4 has changed.
pub placed_ends :
    (a b : ℕ) (t : Descriptors)
    → a < b
    → b ≤ 4
    → a ≤ 3
    → (placed a b t 3 ≡ some first)
      × (placed a b t 4 ≡ some second)
      × ((n : ℕ) → 4 < n → placed a b t n ≡ t n)
placed_ends a b t ab b4 a3 = (ground arith, ground arith, λ n lt. ground arith)
