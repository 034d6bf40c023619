-- ===== src/Execution/Accounting.antt =====
-- lightrec.c: the counters by reason add up to the totals.
use lightrec.Base.{
  ℕ, zero, suc, ◌+◌, ◌%◌, ◌^◌, ◌≡◌, ◌<◌, ◌==◌, arith, Option, some, none, inl, inr, Bool-cases,
  refl, sym, ap, ◌∙◌,
}
use lightrec.Execution.Machine.{Machine, Stats, FallbackEvent}
use lightrec.Execution.Cycles.{lightrec_set_exit_flags, exit_fallback_refused}
use lightrec.Execution.Fallback.{
  next_count, count_reason, Admission, lightrec_begin_fallback,
  lightrec_record_fallback_instruction, refuse_fallback, count_refusal, admit_fallback,
  note_fallback, lightrec_reset_execution_stats,
}

-- The sum over the six reasons, as a `u64`.
unfoldable pub all_reasons : (ℕ → ℕ) → ℕ
all_reasons f = (f 0 + f 1 + f 2 + f 3 + f 4 + f 5) % 2 ^ 64

pub record Balanced (s : Stats) : Type 0 where
  pub ran : s.fallback_blocks ≡ all_reasons s.fallback_blocks_by_reason
  pub instructions : s.fallback_instructions ≡ all_reasons s.fallback_instructions_by_reason
  pub refused : s.refused_fallback_blocks ≡ all_reasons s.refused_fallback_blocks_by_reason

count-all_reasons :
    (r : ℕ) (f : ℕ → ℕ) → r < 6 → all_reasons (count_reason r f) ≡ next_count (all_reasons f)
unfolding all_reasons count_reason next_count
count-all_reasons zero f h = omega arith
count-all_reasons (suc zero) f h = omega arith
count-all_reasons (suc (suc zero)) f h = omega arith
count-all_reasons (suc (suc (suc zero))) f h = omega arith
count-all_reasons (suc (suc (suc (suc zero)))) f h = omega arith
count-all_reasons (suc (suc (suc (suc (suc zero))))) f h = omega arith
count-all_reasons (suc (suc (suc (suc (suc (suc r)))))) f h = absurd (omega arith)

exit-Balanced :
    (flags : ℕ) (m : Machine)
    → Balanced m.execution_stats
    → Balanced ((lightrec_set_exit_flags flags m).execution_stats)
unfolding lightrec_set_exit_flags
exit-Balanced flags m b = elim (Bool-cases (flags == 0)) [ inl y ↦ rw y b | inr n ↦ rw n b ]

admit-Balanced :
    (r : ℕ) (m : Machine)
    → r < 6
    → Balanced m.execution_stats
    → Balanced ((admit_fallback r m).0.execution_stats)
unfolding admit_fallback
admit-Balanced r m h b = record {
  ran =
      ap next_count b.ran
      ∙ sym (count-all_reasons r (m.execution_stats).fallback_blocks_by_reason h);
  instructions = b.instructions;
  refused = b.refused;
}

refuse-Balanced :
    (r pc : ℕ) (m : Machine)
    → r < 6
    → Balanced m.execution_stats
    → Balanced ((refuse_fallback r pc m).0.execution_stats)
unfolding refuse_fallback count_refusal
refuse-Balanced r pc m h b = exit-Balanced exit_fallback_refused (count_refusal r pc m) (record {
  ran = b.ran;
  instructions = b.instructions;
  refused =
      ap next_count b.refused
      ∙ sym (count-all_reasons r (m.execution_stats).refused_fallback_blocks_by_reason h);
})

-- The books are kept, and the fallback that is active, if there is one, has one of the reasons.
pub record IsAccounted (m : Machine) : Type 0 where
  pub balanced : Balanced m.execution_stats
  pub reason : m.active_fallback_reason < 6

-- A callback of the host leaves the statistics and the active fallback alone.
pub record KeepsCounts (m k : Machine) : Type 0 where
  pub stats : k.execution_stats ≡ m.execution_stats
  pub active : k.active_fallback_reason ≡ m.active_fallback_reason

abbrev pub IsFair : Option Admission → Type 0
IsFair none = Unit {0}
IsFair (some ask) = (m : Machine) (event : FallbackEvent) → KeepsCounts m (ask m event).0

exit-active :
    (flags : ℕ) (m : Machine)
    → (lightrec_set_exit_flags flags m).active_fallback_reason ≡ m.active_fallback_reason
unfolding lightrec_set_exit_flags
exit-active flags m = elim (Bool-cases (flags == 0)) [ inl y ↦ rw y refl | inr n ↦ rw n refl ]

admit-IsAccounted :
    (r : ℕ) (m : Machine) → r < 6 → IsAccounted m → IsAccounted ((admit_fallback r m).0)
admit-IsAccounted r m h a = record {
  balanced = admit-Balanced r m h a.balanced;
  reason = unfold admit_fallback in h;
}

refuse-IsAccounted :
    (r pc : ℕ) (m : Machine) → r < 6 → IsAccounted m → IsAccounted ((refuse_fallback r pc m).0)
refuse-IsAccounted r pc m h a = record {
  balanced = refuse-Balanced r pc m h a.balanced;
  reason =
      unfold refuse_fallback count_refusal in
      rw (exit-active exit_fallback_refused (count_refusal r pc m)) a.reason;
}

kept-IsAccounted : {m k : Machine} → KeepsCounts m k → IsAccounted m → IsAccounted k
kept-IsAccounted c a = record { balanced = rw c.stats a.balanced; reason = rw c.active a.reason }

begin-IsAccounted :
    (admission : Option Admission) (event : FallbackEvent) (m : Machine)
    → IsFair admission
    → event.reason < 6
    → IsAccounted m
    → IsAccounted ((lightrec_begin_fallback admission event m).0)
unfolding lightrec_begin_fallback note_fallback
begin-IsAccounted none event m fair h a =
    admit-IsAccounted event.reason (note_fallback event m) h
      (record { balanced = a.balanced; reason = a.reason })
begin-IsAccounted (some ask) event m fair h a =
    let asked = ask (note_fallback event m) event in
    let noted : IsAccounted (note_fallback event m) = record {
      balanced = a.balanced;
      reason = a.reason;
    } in
    let kept = kept-IsAccounted (fair (note_fallback event m) event) noted in
    elim (Bool-cases asked.1) [
      | inl y ↦ rw y (admit-IsAccounted event.reason asked.0 h kept)
      | inr n ↦ rw n (refuse-IsAccounted event.reason event.guest_pc asked.0 h kept)
    ]

instruction-IsAccounted :
    (m : Machine) → IsAccounted m → IsAccounted (lightrec_record_fallback_instruction m)
unfolding lightrec_record_fallback_instruction
instruction-IsAccounted m a = elim (Bool-cases (m.active_fallback_reason == 0)) [
  | inl y ↦ rw y a
  | inr n ↦ rw n (record {
    reason = a.reason;
    balanced = record {
      ran = a.balanced.ran;
      refused = a.balanced.refused;
      instructions =
          ap next_count a.balanced.instructions
          ∙ sym (
              count-all_reasons m.active_fallback_reason
                (m.execution_stats).fallback_instructions_by_reason a.reason);
    };
  })
]

-- The calls that count, from `lightrec_fallback_block` and from the interpreter that it runs.
-- `elsewhere` is code that changes neither the statistics nor the active fallback.
pub data Call : Machine → Machine → Type 0 where
  begin :
      {m : Machine} (admission : Option Admission) (event : FallbackEvent)
      → IsFair admission
      → event.reason < 6
      → Call m ((lightrec_begin_fallback admission event m).0)
  instruction : {m : Machine} → Call m (lightrec_record_fallback_instruction m)
  finish : {m : Machine} → Call m (record m { active_fallback_reason = 0 })
  elsewhere : {m k : Machine} → KeepsCounts m k → Call m k

pub data Runs : Machine → Machine → Type 0 where
  here : {m : Machine} → Runs m m
  call : {a b c : Machine} → Call a b → Runs b c → Runs a c

Call-IsAccounted : {a b : Machine} → Call a b → IsAccounted a → IsAccounted b
Call-IsAccounted {a} (begin admission event fair h) k = begin-IsAccounted admission event a fair h k
Call-IsAccounted {a} instruction k = instruction-IsAccounted a k
Call-IsAccounted {a} finish k = record { balanced = k.balanced; reason = omega arith }
Call-IsAccounted (elsewhere c) k = kept-IsAccounted c k

Runs-IsAccounted : {a b : Machine} → Runs a b → IsAccounted a → IsAccounted b
Runs-IsAccounted here k = k
Runs-IsAccounted (call c rest) k = Runs-IsAccounted rest (Call-IsAccounted c k)

reset-IsAccounted :
    (m : Machine) → m.active_fallback_reason < 6 → IsAccounted (lightrec_reset_execution_stats m)
unfolding lightrec_reset_execution_stats all_reasons
reset-IsAccounted m h = record {
  balanced = record { ran = refl; instructions = refl; refused = refl };
  reason = h;
}

-- From a reset of the statistics on, whatever fallbacks begin, are refused, run instructions and end, in
-- any order: the totals of the blocks that fell back, of those that were refused and of the
-- instructions that the interpreter ran for them are the sums of the counters by reason, as `u64`
-- numbers. Conditions: every reason is one of the six, that of a fallback active at the reset too, and
-- the admission callback leaves the statistics and the active fallback alone.
pub calls-Balanced :
    (m k : Machine)
    → m.active_fallback_reason < 6
    → Runs (lightrec_reset_execution_stats m) k
    → Balanced k.execution_stats
calls-Balanced m k h calls = let a = Runs-IsAccounted calls (reset-IsAccounted m h) in a.balanced
