-- ===== src/Interp/Ownership/Safety.antt =====
-- src/interp: what holds of every state that the interpreter reaches.
use conc_ir.Prelude.{
  ◌∙◌, Bool-cases, false, ==_iff, ℕ, ◌==◌, ◌≡◌, refl, sym, ap, subst, ◌≢◌, ◌↔◌, true, Option, none,
  some, List, [], ◌∷◌, length, In, inl, inr, arith,
}
use conc_ir.Prelude.Int.{ℤ, pos, leb_ℤ}
use conc_ir.Prelude.Map.{get, insert, get-insert_inv, get-empty, nat_key}
use conc_ir.Sem.Outcome.{ResourceId, ThreadId, ok}
use conc_ir.Sem.Program.{
  SemProgram, SemResource, ResKind, var, atomic, mutex, rw_lock, channel, function,
  is_transparent_nobody,
}
use conc_ir.Sem.Monitor.{max_for}
use conc_ir.Sem.System.{Step, Enabled}
use conc_ir.Interp.State.{
  MachineState, Store, ChannelState, held, empty_channel, init_resource, init_resources,
  empty_store, empty_state, initial_state, alloc_frame,
}
use conc_ir.Interp.Access.{Interpreter, permits_of}
use conc_ir.Interp.Machine.{initial, successors}
use conc_ir.Interp.Ownership.Relation.{
  Post, Kept, kept, Kept-if, then_same, Post-bind, Post-any, Post-if, Post-ok,
}
use conc_ir.Interp.Ownership.Keeping.{write_frame-Kept, alloc_frame-Kept}
use conc_ir.Interp.Ownership.Respect.{NonNegative, Bounded}
use conc_ir.Interp.Ownership.Successors.{step-Moved, Moved}

-- The states that the interpreter reaches.
pub data Runs (it : Interpreter) : MachineState → Type 0 where
  begin : (s : MachineState) → initial it ≡ ok s → Runs it s
  move :
      (s : MachineState) (en : Enabled MachineState) (st : Step MachineState)
      → Runs it s
      → successors it s ≡ ok en
      → In st en.steps
      → Runs it st.state

-- In every step the thread that moves is the one that the label names, and each other thread holds
-- after the step exactly the mutexes that it held before: no step takes a mutex from a thread or
-- gives one to a thread, but for the one that moves.
pub holders_stable :
    (it : Interpreter) (s : MachineState) (en : Enabled MachineState) (st : Step MachineState)
    → successors it s ≡ ok en
    → In st en.steps
    → (tid : ThreadId) × (st.label.thread ≡ some tid)
      × ((r h : ℕ)
          → h ≢ tid
          → (get r s.store.mutexes ≡ some (held h))
            ↔ (get r st.state.store.mutexes ≡ some (held h)))
unfolding Moved
holders_stable it s en st e i =
    let (tid, named, x) = step-Moved it s en st e i in (tid, named, x.others)

-- Where a thread holds a mutex after a step and did not hold it before, no thread held it before.
pub taken_when_unheld :
    (it : Interpreter) (s : MachineState) (en : Enabled MachineState) (st : Step MachineState)
    (r : ResourceId) (tid h : ThreadId)
    → successors it s ≡ ok en
    → In st en.steps
    → get r st.state.store.mutexes ≡ some (held tid)
    → get r s.store.mutexes ≢ some (held tid)
    → get r s.store.mutexes ≢ some (held h)
taken_when_unheld it s en st r tid h e i after before was =
    let (mover, named, others) = holders_stable it s en st e i in
    elim (Bool-cases (h == mover)) [
      | inl moved ↦ before ((others r tid (λ q. not_mover mover moved q)).1 after)
      | inr stayed ↦ before (
          was
          ∙ ap (λ x. some (held x))
              (same_holder ((others r h (λ q. no_mover mover stayed q)).0 was)))
    ]
  where
    holder_apart : h ≡ tid → ⊥
    holder_apart q = before (was ∙ ap (λ x. some (held x)) q)

    not_mover : (mover : ThreadId) → (h == mover) ≡ true → tid ≡ mover → ⊥
    not_mover mover moved q = let (sound, _) = ==_iff h mover in holder_apart (sound moved ∙ sym q)

    no_mover : (mover : ThreadId) → (h == mover) ≡ false → h ≡ mover → ⊥
    no_mover mover stayed q = let (_, full) = ==_iff h mover in let t = full q in cc

    same_holder : get r st.state.store.mutexes ≡ some (held h) → h ≡ tid
    same_holder g = cc

EmptyBuffers : Store → Type 0
EmptyBuffers store =
    (c : ResourceId) (ch : ChannelState) → get c store.channels ≡ some ch → length ch.buffer ≡ 0

init_resource_empty :
    (r : SemResource) (store : Store) → EmptyBuffers store → EmptyBuffers (init_resource r store)
unfolding EmptyBuffers init_resource
init_resource_empty r store b = by_kind r.kind refl
  where
    by_kind : (k : ResKind) → r.kind ≡ k → EmptyBuffers (init_resource r store)
    by_kind var e = rw (e) b
    by_kind atomic e = rw (e) b
    by_kind mutex e = rw (e) b
    by_kind ResKind.condvar e = rw (e) b
    by_kind ResKind.semaphore e = rw (e) b
    by_kind rw_lock e = rw (e) b
    by_kind channel e = rw (e) added
      where
        added :
            (c : ResourceId) (ch : ChannelState)
            → get c (insert r.id empty_channel store.channels) ≡ some ch
            → length ch.buffer ≡ 0
        added c ch g = elim (get-insert_inv r.id c empty_channel ch store.channels g) [
          | inl (k, v) ↦ ap (λ x. length x.buffer) (sym v)
          | inr old ↦ b c ch old
        ]

init_resources_empty :
    (rs : List SemResource) (store : Store)
    → EmptyBuffers store
    → EmptyBuffers (init_resources rs store)
unfolding init_resources
init_resources_empty [] store b = b
init_resources_empty (r ∷ rs) store b =
    init_resources_empty rs (init_resource r store) (init_resource_empty r store b)

PermitsLeft : Store → Type 0
PermitsLeft store =
    (r : ResourceId) (n : ℤ) → get r store.semaphores ≡ some n → leb_ℤ (pos 0) n ≡ true

init_resource_permits :
    (r : SemResource) (store : Store)
    → leb_ℤ (pos 0) r.permits ≡ true
    → PermitsLeft store
    → PermitsLeft (init_resource r store)
unfolding PermitsLeft init_resource
init_resource_permits r store enough b = by_kind r.kind refl
  where
    by_kind : (k : ResKind) → r.kind ≡ k → PermitsLeft (init_resource r store)
    by_kind var e = rw (e) b
    by_kind atomic e = rw (e) b
    by_kind mutex e = rw (e) b
    by_kind ResKind.condvar e = rw (e) b
    by_kind channel e = rw (e) b
    by_kind rw_lock e = rw (e) b
    by_kind ResKind.semaphore e = rw (e) added
      where
        added :
            (r' : ResourceId) (n : ℤ)
            → get r' (insert r.id r.permits store.semaphores) ≡ some n
            → leb_ℤ (pos 0) n ≡ true
        added r' n g = elim (get-insert_inv r.id r' r.permits n store.semaphores g) [
          | inl (k, v) ↦ subst (λ x. leb_ℤ (pos 0) x ≡ true) v enough
          | inr old ↦ b r' n old
        ]

init_resources_permits :
    (rs : List SemResource) (store : Store)
    → ((res : SemResource) → In res rs → leb_ℤ (pos 0) res.permits ≡ true)
    → PermitsLeft store
    → PermitsLeft (init_resources rs store)
unfolding init_resources
init_resources_permits [] store enough b = b
init_resources_permits (r ∷ rs) store enough b =
    init_resources_permits rs (init_resource r store) (λ res i. enough res (inr i))
      (init_resource_permits r store (enough r (inl refl)) b)

-- The first state has the resources that the program declares.
initial_state-Kept :
    (p : SemProgram)
    → Post (Kept (empty_state (init_resources p.resources empty_store))) (initial_state p)
unfolding initial_state
initial_state-Kept p = Post-any _ (function p p.entry) _ (λ f.
    Post-if _ (is_transparent_nobody f) _ _ (Post-ok _ _ (kept refl refl refl)) (
      Post-bind _ (alloc_frame p p.entry (empty_state (init_resources p.resources empty_store))) _
        (alloc_frame-Kept p p.entry _)
        (λ (frame, s') k.
          Post-ok _ _
            (then_same k (then_same (write_frame-Kept frame.id frame s') (kept refl refl refl))))))

initial-Kept :
    (it : Interpreter)
    → Post (Kept (empty_state (init_resources it.program.resources empty_store))) (initial it)
unfolding initial
initial-Kept it = Post-bind _ (initial_state it.program) _ (initial_state-Kept it.program) (λ s k.
    Post-ok _ _ (
      then_same k (
        Kept-if (max_for it.monitor it.program.entry == 0) _ _ (kept refl refl refl)
          (kept refl refl refl))))

begins-Kept :
    (it : Interpreter) (s : MachineState)
    → initial it ≡ ok s
    → Kept (empty_state (init_resources it.program.resources empty_store)) s
unfolding Post
begins-Kept it s e =
    subst (Post (Kept (empty_state (init_resources it.program.resources empty_store)))) e
      (initial-Kept it)

begins-Bounded : (it : Interpreter) (s : MachineState) → initial it ≡ ok s → Bounded it s
unfolding Bounded EmptyBuffers
begins-Bounded it s e c ch res g h =
    let k = begins-Kept it s e in
    let g' = subst (λ m. get c m ≡ some ch) k.channels g in
    let empty = init_resources_empty it.program.resources empty_store nothing c ch g' in omega arith
  where
    nothing : (c : ResourceId) (ch : ChannelState) → get c [] ≡ some ch → length ch.buffer ≡ 0
    nothing c ch g = absurd (no_channel (get-empty c) g)
      where
        no_channel : {o : Option ChannelState} → o ≡ none → o ≡ some ch → ⊥
        no_channel e e' = cc

-- In every state that the interpreter reaches, from its initial state by any steps of the threads,
-- no channel buffers more messages than its resource's capacity.
pub reachable-Bounded : (it : Interpreter) (s : MachineState) → Runs it s → Bounded it s
unfolding Moved
reachable-Bounded it _ (begin s e) = begins-Bounded it s e
reachable-Bounded it _ (move s en st runs e i) =
    let (tid, named, x) = step-Moved it s en st e i in x.buffers (reachable-Bounded it s runs)

begins-NonNegative :
    (it : Interpreter) (s : MachineState)
    → ((res : SemResource) → In res it.program.resources → leb_ℤ (pos 0) res.permits ≡ true)
    → initial it ≡ ok s
    → NonNegative s
unfolding NonNegative PermitsLeft
begins-NonNegative it s enough e r =
    let k = begins-Kept it s e in
    let left = init_resources_permits it.program.resources empty_store enough nothing r in
    permits (get r s.store.semaphores)
      (λ n g. left n (subst (λ m. get r m ≡ some n) k.semaphores g))
  where
    nothing : (r : ResourceId) (n : ℤ) → get r [] ≡ some n → leb_ℤ (pos 0) n ≡ true
    nothing r n g = absurd (no_permits (get-empty r) g)
      where
        no_permits : {o : Option ℤ} → o ≡ none → o ≡ some n → ⊥
        no_permits e e' = cc

    permits :
        (o : Option ℤ)
        → ((n : ℤ) → o ≡ some n → leb_ℤ (pos 0) n ≡ true)
        → leb_ℤ (pos 0) (permits_of o) ≡ true
    permits none k = ground arith
    permits (some n) k = k n refl

-- When no resource of the program declares a negative number of permits, no semaphore has a
-- negative number of permits in any state that the interpreter reaches.
pub reachable-NonNegative :
    (it : Interpreter) (s : MachineState)
    → ((res : SemResource) → In res it.program.resources → leb_ℤ (pos 0) res.permits ≡ true)
    → Runs it s
    → NonNegative s
unfolding Moved
reachable-NonNegative it _ enough (begin s e) = begins-NonNegative it s enough e
reachable-NonNegative it _ enough (move s en st runs e i) =
    let (tid, named, x) = step-Moved it s en st e i in
    x.permits (reachable-NonNegative it s enough runs)
