-- ===== src/Interp/Notify.antt =====
-- src/interp/exec.rs: whom a notification of one waiter wakes.
use mathlib.Core.Option
use conc_ir.Prelude.{◌≡◌, ◌≢◌, not, Option, List, [], ◌∷◌, retain}
use conc_ir.Prelude.Map.{get, nat_key}
use conc_ir.Sem.Outcome.{ResourceId, ThreadId}
use conc_ir.Interp.State.{MachineState, ThreadState, CondvarState, blocked, lock}
use conc_ir.Interp.Sync.{is_waiter}

-- From `s` to `s'` the thread `w` left the queue of `c` and waits for its lock; the other threads
-- are as they were.
pub record Woken (c : ResourceId) (w : ThreadId) (l : ResourceId) (s s' : MachineState)
    : Type 0 where
  pub status :
      get w s'.threads
      ≡ Option.map (λ (t : ThreadState). record t { status = blocked (lock l) }) (get w s.threads)
  pub queue :
      get c s'.store.condvars
      ≡ Option.map
          (λ (cv : CondvarState). record cv {
            waiters = retain (λ x. not (is_waiter w l x)) cv.waiters;
          })
          (get c s.store.condvars)
  pub others : (v : ThreadId) → v ≢ w → get v s'.threads ≡ get v s.threads

-- The successors of a notification and the waiters, one for the other.
abbrev pub Matched :
    ResourceId → MachineState → List (ThreadId × ResourceId) → List MachineState → Type 0
Matched c s [] [] = Unit {0}
Matched c s [] (x ∷ xs) = ⊥
Matched c s (w ∷ ws) [] = ⊥
Matched c s ((w, l) ∷ ws) (x ∷ xs) = Woken c w l s x × Matched c s ws xs
