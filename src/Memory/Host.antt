-- ===== src/Memory/Host.antt =====
-- lightrec.c: host accesses of one, two and four bytes. `LE16TOH`, `HTOLE32` and the like make them
-- little-endian on every host.
use lightrec.Base.{ℕ, ◌+◌, ◌*◌, ◌/◌, ◌%◌, ◌^◌, ◌==◌, if◌then◌else◌}

unfoldable pub load8 : ℕ → (ℕ → ℕ) → ℕ
load8 host memory = memory host % 2 ^ 8

unfoldable pub load16 : ℕ → (ℕ → ℕ) → ℕ
unfolding load8
load16 host memory = load8 host memory + load8 (host + 1) memory * 2 ^ 8

unfoldable pub load32 : ℕ → (ℕ → ℕ) → ℕ
unfolding load16
load32 host memory = load16 host memory + load16 (host + 2) memory * 2 ^ 16

unfoldable pub store8 : ℕ → ℕ → (ℕ → ℕ) → ℕ → ℕ
store8 host word memory = λ i. if host == i then word % 2 ^ 8 else memory i

unfoldable pub store16 : ℕ → ℕ → (ℕ → ℕ) → ℕ → ℕ
unfolding store8
store16 host word memory = store8 (host + 1) (word / 2 ^ 8) (store8 host word memory)

unfoldable pub store32 : ℕ → ℕ → (ℕ → ℕ) → ℕ → ℕ
unfolding store16
store32 host word memory = store16 (host + 2) (word / 2 ^ 16) (store16 host word memory)
