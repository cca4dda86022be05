-- ===== src/Interp/Ownership/Successors.antt =====
-- src/interp/exec.rs: every successor of a state respects the threads that did not move.
use conc_ir.Prelude.{
  ℕ, ◌≡◌, refl, subst, Option, none, some, List, [], ◌∷◌, map, get_elem?, In, inl, inr,
}
use conc_ir.Prelude.Map.{Map, insert, nat_key, pair_key}
use conc_ir.Sem.Outcome.{
  FunctionId, ThreadId, FrameId, Location, StepLabel, e999, invalid_error, Result, ok, ◌>>=◌, ok_or,
}
use conc_ir.Sem.Program.{SemOp, SemStmt, SemFunction, function}
use conc_ir.Sem.System.{Step, Enabled}
use conc_ir.Interp.State.{
  MachineState, ThreadState, ThreadStatus, runnable, blocked, finished, BlockReason,
  current_frame_id, frame_of,
}
use conc_ir.Interp.Access.{Interpreter, Fired, if_written, fires, step_label}
use conc_ir.Interp.Threads.{apply_return}
use conc_ir.Interp.Step.{step_op, step_thread}
use conc_ir.Interp.Resume.{resume_op, resume_thread}
use conc_ir.Interp.Machine.{thread_steps, all_steps, successors}
use conc_ir.Interp.Ownership.Relation.{
  Post, Every, Fires, kept, same, Post-bind, Post-any, Post-map, Post-ok, Every-append,
}
use conc_ir.Interp.Ownership.Respect.{Respects, keeps, then-Respects, error_ok, step_on-Respects}
use conc_ir.Interp.Ownership.Sync.{
  assign_local-Respects, read_shared-Respects, write_shared-Respects, atomic_load-Respects,
  atomic_store-Respects, atomic_cas-Respects, mutex_lock-Respects, mutex_unlock-Respects,
  condvar_wait-Respects, notify-Respects, notify_all-Respects, semaphore_acquire-Respects,
  semaphore_release-Respects,
}
use conc_ir.Interp.Ownership.Channels.{channel_send-Respects, channel_recv-Respects}
use conc_ir.Interp.Ownership.Calls.{
  call-Respects, spawn-Respects, scope-Respects, join-Respects, jump-Respects, branch-Respects,
  switch-Respects, returned-Respects, return-Respects,
}
use conc_ir.Interp.Ownership.Resume.{resume_op-Respects}

module _ (it : Interpreter) (tid : ThreadId) where
  step_op-Respects :
      (at : Location) (fid : FrameId) (func : FunctionId) (f : SemFunction) (pc : ℕ) (op : SemOp)
      (s : MachineState)
      → Post (Fires (Respects it tid s)) (step_op it at tid fid func f pc op s)
  unfolding step_op
  step_op-Respects at fid func f pc SemOp.nop s = step_on-Respects tid s (keeps (same s))
  step_op-Respects at fid func f pc (SemOp.assign_local t e) s =
      assign_local-Respects it tid fid f t e s
  step_op-Respects at fid func f pc (SemOp.read_shared r d) s =
      read_shared-Respects it tid fid r d s
  step_op-Respects at fid func f pc (SemOp.write_shared r e) s =
      write_shared-Respects it tid fid r e s
  step_op-Respects at fid func f pc (SemOp.atomic_load r d) s =
      atomic_load-Respects it tid fid r d s
  step_op-Respects at fid func f pc (SemOp.atomic_store r e) s =
      atomic_store-Respects it tid fid r e s
  step_op-Respects at fid func f pc (SemOp.atomic_cas r x y d) s =
      atomic_cas-Respects it tid fid r x y d s
  step_op-Respects at fid func f pc (SemOp.mutex_lock r) s = mutex_lock-Respects it tid r s
  step_op-Respects at fid func f pc (SemOp.mutex_unlock r) s = mutex_unlock-Respects it tid at r s
  step_op-Respects at fid func f pc (SemOp.channel_send c e) s =
      channel_send-Respects it tid fid c e s
  step_op-Respects at fid func f pc (SemOp.channel_recv c d) s =
      channel_recv-Respects it tid fid c s
  step_op-Respects at fid func f pc (SemOp.condvar_wait c l) s =
      condvar_wait-Respects it tid at c l s
  step_op-Respects at fid func f pc (SemOp.condvar_notify c) s = notify-Respects it tid c s
  step_op-Respects at fid func f pc (SemOp.condvar_notify_all c) s = notify_all-Respects it tid c s
  step_op-Respects at fid func f pc (SemOp.semaphore_acquire r n) s =
      semaphore_acquire-Respects it tid at r n s
  step_op-Respects at fid func f pc (SemOp.semaphore_release r n) s =
      semaphore_release-Respects it tid at r n s
  step_op-Respects at fid func f pc (SemOp.call g xs d) s = call-Respects it tid fid pc g xs d s
  step_op-Respects at fid func f pc (SemOp.spawn g h) s = spawn-Respects it tid fid g h s
  step_op-Respects at fid func f pc (SemOp.scope gs) s = scope-Respects it tid at fid func pc gs s
  step_op-Respects at fid func f pc (SemOp.join h) s = join-Respects it tid at fid h s
  step_op-Respects at fid func f pc (SemOp.goto t) s = jump-Respects it tid fid t s
  step_op-Respects at fid func f pc (SemOp.branch c t e) s = branch-Respects it tid at fid c t e s
  step_op-Respects at fid func f pc (SemOp.switch e cs d) s = switch-Respects it tid at fid e cs d s
  step_op-Respects at fid func f pc (SemOp.return v) s = return-Respects it tid fid func f v s
  step_op-Respects at fid func f pc (SemOp.unsupported_op c) s = error_ok _ _

  -- The label names the thread, and every state respects the others.
  Moves : MachineState → StepLabel × Fired → Type 0
  Moves s (label, fired) = (label.thread ≡ some tid) × Fires (Respects it tid s) fired

  label_names :
      (func : FunctionId) (pc : ℕ) (fid : FrameId)
      → Post (λ (l : StepLabel). l.thread ≡ some tid) (step_label it func pc tid fid)
  unfolding step_label
  label_names func pc fid = Post-any _ (function it.program func) _ (λ f. Post-ok _ _ refl)

  step_thread-Moves : (s : MachineState) → Post (Moves s) (step_thread it s tid)
  unfolding step_thread Moves Every
  step_thread-Moves s = Post-any _ (ok_or (current_frame_id s tid) (invalid_error e999)) _ (λ fid.
      Post-any _ (frame_of s fid) _ (λ frame.
        Post-any _ (function it.program frame.function) _ (λ f.
          Post-bind _ (step_label it frame.function frame.pc tid fid) _
            (label_names frame.function frame.pc fid)
            (λ label named.
              Post-bind _ _ _ (fired fid frame.function frame.pc f (get_elem? f.body frame.pc))
                (λ fired x. Post-ok _ _ (named, x))))))
    where
      reached : FunctionId → ℕ → MachineState
      reached func pc = record s { reached = insert (func, pc) tt s.reached }

      fired :
          (fid : FrameId) (func : FunctionId) (pc : ℕ) (f : SemFunction) (o : Option SemStmt)
          → Post (Fires (Respects it tid s)) (elim o [
            | none ↦ apply_return it tid fid func f none s >>= λ s'. if_written fires s'
            | some stmt ↦
                step_op it
                  (func, some pc)
                  tid
                  fid
                  func
                  f
                  pc
                  stmt.op
                  (record s { reached = insert (func, pc) tt s.reached })
          ])
      fired fid func pc f none = returned-Respects it tid fid func f none s
      fired fid func pc f (some stmt) =
          Post-map (step_op it (func, some pc) tid fid func f pc stmt.op (reached func pc))
            (step_op-Respects (func, some pc) fid func f pc stmt.op (reached func pc))
            (λ fd x. every_since fd.states x)
        where
          every_since :
              (ss : List MachineState)
              → Every (Respects it tid (reached func pc)) ss
              → Every (Respects it tid s) ss
          every_since [] x = tt
          every_since (s' ∷ ss) (x, xs) =
              (then-Respects (keeps (kept refl refl refl)) x, every_since ss xs)

  resume_thread-Moves :
      (s : MachineState) (reason : BlockReason) → Post (Moves s) (resume_thread it s tid reason)
  unfolding resume_thread Moves
  resume_thread-Moves s reason =
      Post-any _ (ok_or (current_frame_id s tid) (invalid_error e999)) _ (λ fid.
        Post-any _ (frame_of s fid) _ (λ frame.
          Post-bind _ (step_label it frame.function frame.pc tid fid) _
            (label_names frame.function frame.pc fid)
            (λ label named.
              Post-bind _ (resume_op it tid fid reason s) _ (resume_op-Respects it tid fid reason s)
                (λ fired x. Post-ok _ _ (named, x)))))

-- The step is one of the thread that its label names, and it respects the others.
unfoldable pub Moved : Interpreter → MachineState → Step MachineState → Type 0
Moved it s st = (tid : ThreadId) × (st.label.thread ≡ some tid) × Respects it tid s st.state

labelled-Moved :
    (it : Interpreter) (tid : ThreadId) (s : MachineState) (label : StepLabel)
    (ss : List MachineState)
    → label.thread ≡ some tid
    → Every (Respects it tid s) ss
    → Every (Moved it s) (map (λ s'. record { label = label; state = s' }) ss)
unfolding Every Moved
labelled-Moved it tid s label [] named x = tt
labelled-Moved it tid s label (s' ∷ ss) named (x, xs) =
    ((tid, named, x), labelled-Moved it tid s label ss named xs)

thread_steps-Moved :
    (it : Interpreter) (s : MachineState) (tid : ThreadId) (status : ThreadStatus)
    → Post (λ en. Every (Moved it s) en.steps) (thread_steps it s tid status)
unfolding thread_steps Moves Every
thread_steps-Moved it s tid runnable =
    Post-bind _ (step_thread it s tid) _ (step_thread-Moves it tid s) (λ (label, fired) (named, x).
      Post-ok _ _ (labelled-Moved it tid s label fired.states named x))
thread_steps-Moved it s tid (blocked reason) =
    Post-bind _ (resume_thread it s tid reason) _ (resume_thread-Moves it tid s reason)
      (λ (label, fired) (named, x).
        Post-ok _ _ (labelled-Moved it tid s label fired.states named x))
thread_steps-Moved it s tid finished = Post-ok _ _ tt

all_steps-Moved :
    (it : Interpreter) (s : MachineState) (m : Map ThreadId ThreadState)
    → Post (λ en. Every (Moved it s) en.steps) (all_steps it s m)
unfolding all_steps Every
all_steps-Moved it s [] = Post-ok _ _ tt
all_steps-Moved it s ((tid, t) ∷ m) =
    Post-bind _ (thread_steps it s tid t.status) _ (thread_steps-Moved it s tid t.status) (λ here x.
      Post-bind _ (all_steps it s m) _ (all_steps-Moved it s m)
        (λ rest y. Post-ok _ _ (Every-append _ here.steps rest.steps x y)))

every-In : {A : Type 0} (P : A → Type 0) (xs : List A) (a : A) → Every P xs → In a xs → P a
unfolding Every
every-In P [] a x i = absurd i
every-In P (b ∷ xs) a (x, y) (inl e) = subst P e x
every-In P (b ∷ xs) a (x, y) (inr i) = every-In P xs a y i

pub step-Moved :
    (it : Interpreter) (s : MachineState) (en : Enabled MachineState) (st : Step MachineState)
    → successors it s ≡ ok en
    → In st en.steps
    → Moved it s st
unfolding successors Post
step-Moved it s en st e i =
    every-In (Moved it s) en.steps st
      (every_step (all_steps it s s.threads) e (all_steps-Moved it s s.threads)) i
  where
    every_step :
        (m : Result (Enabled MachineState))
        → m ≡ ok en
        → Post (λ en. Every (Moved it s) en.steps) m
        → Every (Moved it s) en.steps
    every_step m e p = subst (Post (λ en. Every (Moved it s) en.steps)) e p
