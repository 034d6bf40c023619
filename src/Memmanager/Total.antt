-- ===== src/Memmanager/Total.antt =====
-- memmanager.c: the total of the bytes in use.
use lightrec.Base.{ℕ, zero, suc, ◌<◌, ◌≡◌, arith, none, some, add32, sub32, IsU32, refl}
use lightrec.Memmanager.Usage.{
  Usage, lightrec_register, lightrec_unregister, lightrec_malloc, lightrec_free,
  lightrec_get_total_mem_usage, usage_from, lightrec_get_mem_usage,
}

total-register :
    (type len : ℕ) (bytes : Usage)
    → type < 4
    → lightrec_get_total_mem_usage (lightrec_register type len bytes)
      ≡ add32 (lightrec_get_total_mem_usage bytes) len
unfolding lightrec_get_total_mem_usage usage_from lightrec_get_mem_usage lightrec_register add32
total-register zero len bytes h = omega arith
total-register (suc zero) len bytes h = omega arith
total-register (suc (suc zero)) len bytes h = omega arith
total-register (suc (suc (suc zero))) len bytes h = omega arith
total-register (suc (suc (suc (suc t)))) len bytes h = absurd (omega arith)

-- An allocation that succeeds adds its size to the total, one that fails changes no count, and freeing
-- what was allocated brings every count back. Conditions: the type is one of the four, and the size
-- and the counts are 32-bit words.
pub free-malloc :
    (type len ptr t : ℕ) (bytes : Usage)
    → type < 4
    → IsU32 len
    → IsU32 (bytes t)
    → (lightrec_get_total_mem_usage ((lightrec_malloc (some ptr) type len bytes).1)
        ≡ add32 (lightrec_get_total_mem_usage bytes) len)
      × ((lightrec_malloc none type len bytes).1 ≡ bytes)
      × (lightrec_free type len ((lightrec_malloc (some ptr) type len bytes).1) t ≡ bytes t)
unfolding lightrec_malloc lightrec_free
free-malloc type len ptr t bytes h size word = (total-register type len bytes h, refl, back)
  where
    back : lightrec_unregister type len (lightrec_register type len bytes) t ≡ bytes t
    back = unfold lightrec_unregister lightrec_register add32 sub32 in ground arith
