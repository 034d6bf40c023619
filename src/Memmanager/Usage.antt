-- ===== src/Memmanager/Usage.antt =====
-- memmanager.c: the counts, and the allocations that move them.
use lightrec.Base.{ℕ, zero, suc, ◌+◌, ◌==◌, if◌then◌else◌, Option, none, some, add32, sub32}

-- `lightrec_bytes`, and `MEM_TYPE_END`.
abbrev pub Usage : Type 0
Usage = ℕ → ℕ

abbrev pub mem_type_end : ℕ
mem_type_end = 4

unfoldable pub lightrec_register : ℕ → ℕ → Usage → Usage
unfolding add32
lightrec_register type len bytes = λ t. if type == t then add32 (bytes t) len else bytes t

unfoldable pub lightrec_unregister : ℕ → ℕ → Usage → Usage
unfolding sub32
lightrec_unregister type len bytes = λ t. if type == t then sub32 (bytes t) len else bytes t

unfoldable pub lightrec_get_mem_usage : Usage → ℕ → ℕ
lightrec_get_mem_usage bytes type = bytes type

-- The loop, over `n` types from `i` on.
unfoldable pub usage_from : Usage → ℕ → ℕ → ℕ → ℕ
unfolding lightrec_get_mem_usage add32
usage_from bytes zero i count = count
usage_from bytes (suc n) i count =
    usage_from bytes n (i + 1) (add32 count (lightrec_get_mem_usage bytes i))

unfoldable pub lightrec_get_total_mem_usage : Usage → ℕ
unfolding usage_from
lightrec_get_total_mem_usage bytes = usage_from bytes mem_type_end 0 0

-- `allocated` is what `malloc` (or `calloc`) returns, `none` being a null pointer.
unfoldable pub lightrec_malloc : Option ℕ → ℕ → ℕ → Usage → Option ℕ × Usage
unfolding lightrec_register
lightrec_malloc none type len bytes = (none, bytes)
lightrec_malloc (some ptr) type len bytes = (some ptr, lightrec_register type len bytes)

unfoldable pub lightrec_free : ℕ → ℕ → Usage → Usage
unfolding lightrec_unregister
lightrec_free type len bytes = lightrec_unregister type len bytes
