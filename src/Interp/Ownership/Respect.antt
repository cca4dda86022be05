-- ===== src/Interp/Ownership/Respect.antt =====
-- src/interp: what a step of one thread leaves to the others, and the invariants of semaphores and
-- channels.
use conc_ir.Prelude.{
  ℕ, ◌≡◌, refl, sym, ◌∙◌, subst, ap, ◌≢◌, ◌↔◌, ◌⊎◌, inl, inr, ◌≤◌, true, false, Bool-cases, Option,
  none, some, length, if◌then◌else◌,
}
use conc_ir.Prelude.Int.{ℤ, pos, leb_ℤ}
use conc_ir.Prelude.Map.{Map, get, insert, get-insert, same_sound, nat_key, same}
use conc_ir.Sem.Outcome.{ResourceId, ThreadId, BackendError, Result, ok, err}
use conc_ir.Sem.Program.{SemResource, resource}
use conc_ir.Interp.State.{MachineState, MutexState, held, ChannelState, advance}
use conc_ir.Interp.Access.{Interpreter, Fired, disabled, fires, if_written, permits_of}
use conc_ir.Interp.Sync.{step_on, set_mutex, set_permits}
use conc_ir.Interp.Channels.{set_channel}
use conc_ir.Interp.Ownership.Relation.{Post, Every, Opt, Fires, Kept, Post-bind, Post-map}
use conc_ir.Interp.Ownership.Keeping.{advance-Kept}

-- No semaphore has a negative number of permits.
unfoldable pub NonNegative : MachineState → Type 0
NonNegative s = (r : ResourceId) → leb_ℤ (pos 0) (permits_of (get r s.store.semaphores)) ≡ true

-- No channel buffers more messages than its capacity.
unfoldable pub Bounded : Interpreter → MachineState → Type 0
Bounded it s =
    (c : ResourceId) (ch : ChannelState) (res : SemResource)
    → get c s.store.channels ≡ some ch
    → resource it.program c ≡ ok res
    → length ch.buffer ≤ res.capacity

pub record Respects (it : Interpreter) (tid : ThreadId) (s s' : MachineState) : Type 0 where
  pub others :
      (r h : ℕ)
      → h ≢ tid
      → (get r s.store.mutexes ≡ some (held h)) ↔ (get r s'.store.mutexes ≡ some (held h))
  pub permits : NonNegative s → NonNegative s'
  pub buffers : Bounded it s → Bounded it s'

pub keeps :
    {it : Interpreter} {tid : ThreadId} {s s' : MachineState} → Kept s s' → Respects it tid s s'
unfolding NonNegative Bounded
keeps {it} {tid} {s} {s'} k = record {
  others = λ r h ne. (λ e. ap_get (sym k.mutexes) r e, λ e. ap_get k.mutexes r e);
  permits =
      λ n r. subst (λ m. leb_ℤ (pos 0) (permits_of (get r m)) ≡ true) (sym k.semaphores) (n r);
  buffers = λ b c ch res g. b c ch res (subst (λ m. get c m ≡ some ch) k.channels g);
}
  where
    ap_get :
        {m n : Map ResourceId MutexState} {o : Option MutexState}
        → m ≡ n
        → (r : ResourceId) → get r m ≡ o
        → get r n ≡ o
    ap_get e r g = cc

pub then-Respects :
    {it : Interpreter} {tid : ThreadId} {a b c : MachineState}
    → Respects it tid a b
    → Respects it tid b c
    → Respects it tid a c
then-Respects x y = record {
  others = λ r h ne.
      let (f, g) = x.others r h ne in
      let (f', g') = y.others r h ne in (λ e. f' (f e), λ e. g (g' e));
  permits = λ n. y.permits (x.permits n);
  buffers = λ b. y.buffers (x.buffers b);
}

some_inj : {A : Type 0} {a b : A} → some a ≡ some b → a ≡ b
some_inj e = cc

-- A mutex that no other thread holds is changed, and no other thread holds it then.
pub set_mutex-Respects :
    {it : Interpreter} {tid : ThreadId} (r : ResourceId) (m : MutexState) (s : MachineState)
    → ((h : ThreadId) → h ≢ tid → get r s.store.mutexes ≢ some (held h))
    → ((h : ThreadId) → h ≢ tid → m ≢ held h)
    → Respects it tid s (set_mutex r m s)
unfolding NonNegative Bounded
set_mutex-Respects {it} {tid} r m s old new = record {
  others = λ r' h ne. (λ e. forth r' h ne e, λ e. back r' h ne e);
  permits = λ n. n;
  buffers = λ b. b;
}
  where
    get_new :
        (r' : ResourceId)
        → get r' (insert r m s.store.mutexes)
          ≡ (if same r r' then some m else get r' s.store.mutexes)
    get_new r' = get-insert r r' m s.store.mutexes

    forth :
        (r' h : ℕ)
        → h ≢ tid
        → get r' s.store.mutexes ≡ some (held h)
        → get r' (insert r m s.store.mutexes) ≡ some (held h)
    forth r' h ne e = elim (Bool-cases (same r r')) [
      | inl t ↦ absurd (
          old h ne (subst (λ x. get x s.store.mutexes ≡ some (held h)) (sym (same_sound r r' t)) e))
      | inr f ↦ rw (get_new r', f) e
    ]

    back :
        (r' h : ℕ)
        → h ≢ tid
        → get r' (insert r m s.store.mutexes) ≡ some (held h)
        → get r' s.store.mutexes ≡ some (held h)
    back r' h ne e = elim (Bool-cases (same r r')) [
      | inl t ↦ absurd (new h ne (got t))
      | inr f ↦
          sym (ap (λ b. if b then some m else get r' s.store.mutexes) f) ∙ sym (get_new r') ∙ e
    ]
      where
        got : same r r' ≡ true → m ≡ held h
        got t = some_inj (sym new_value ∙ e)
          where
            new_value : get r' (insert r m s.store.mutexes) ≡ some m
            new_value = rw (get_new r', t) refl

-- The permits of a semaphore are set to a number that is not negative.
pub set_permits-Respects :
    {it : Interpreter} {tid : ThreadId} (r : ResourceId) (n : ℤ) (s : MachineState)
    → (NonNegative s → leb_ℤ (pos 0) n ≡ true)
    → Respects it tid s (set_permits r n s)
unfolding NonNegative Bounded
set_permits-Respects {it} {tid} r n s enough = record {
  others = λ r' h ne. (λ e. e, λ e. e);
  permits = λ all r'. at all r' (Bool-cases (same r r'));
  buffers = λ b. b;
}
  where
    at :
        NonNegative s
        → (r' : ResourceId) → (same r r' ≡ true) ⊎ (same r r' ≡ false)
        → leb_ℤ (pos 0) (permits_of (get r' (insert r n s.store.semaphores))) ≡ true
    at all r' (inl t) = rw (get-insert r r' n s.store.semaphores, t) (enough all)
    at all r' (inr f) = rw (get-insert r r' n s.store.semaphores, f) (all r')

-- A channel is replaced by one whose buffer stays within the capacity.
pub set_channel-Respects :
    {it : Interpreter} {tid : ThreadId} (c : ResourceId) (new : ChannelState) (s : MachineState)
    → ((res : SemResource)
        → Bounded it s
        → resource it.program c ≡ ok res
        → length new.buffer ≤ res.capacity)
    → Respects it tid s (set_channel c new s)
unfolding NonNegative Bounded
set_channel-Respects {it} {tid} c new s room = record {
  others = λ r' h ne. (λ e. e, λ e. e);
  permits = λ n. n;
  buffers = λ b c' ch res g e. at b c' ch res (Bool-cases (same c c')) g e;
}
  where
    at :
        Bounded it s
        → (c' : ResourceId) (ch : ChannelState) (res : SemResource)
        → (same c c' ≡ true) ⊎ (same c c' ≡ false)
        → get c' (insert c new s.store.channels) ≡ some ch
        → resource it.program c' ≡ ok res
        → length ch.buffer ≤ res.capacity
    at b c' ch res (inl t) g e =
        subst (λ x. length x.buffer ≤ res.capacity) (is_new t)
          (room res b (subst (λ x. resource it.program x ≡ ok res) (sym (same_sound c c' t)) e))
      where
        is_new : same c c' ≡ true → new ≡ ch
        is_new t = some_inj (sym new_value ∙ g)
          where
            new_value : get c' (insert c new s.store.channels) ≡ some new
            new_value = rw (get-insert c c' new s.store.channels, t) refl
    at b c' ch res (inr f) g e = b c' ch res (old f) e
      where
        old : same c c' ≡ false → get c' s.store.channels ≡ some ch
        old f = sym old_value ∙ g
          where
            old_value : get c' (insert c new s.store.channels) ≡ get c' s.store.channels
            old_value = rw (get-insert c c' new s.store.channels, f) refl

-- The states that a step fires.
pub fires_ok : (P : MachineState → Type 0) (s : MachineState) → P s → Post (Fires P) (fires s)
unfolding Post Every
fires_ok P s p = (p, tt)

pub disabled_ok : (P : MachineState → Type 0) → Post (Fires P) disabled
unfolding Post Every
disabled_ok P = tt

pub error_ok {ℓ} : {A : Type ℓ} (P : A → Type 0) (e : BackendError) → Post P (err e)
unfolding Post
error_ok P e = tt

pub if_written_ok :
    (P : MachineState → Type 0) {Q : MachineState → Type 0} (rest : MachineState → Result Fired)
    (o : Option MachineState)
    → Opt Q o
    → ((s : MachineState) → Q s → Post (Fires P) (rest s))
    → Post (Fires P) (if_written rest o)
if_written_ok P rest none q k = disabled_ok P
if_written_ok P rest (some s) q k = k s q

pub advance-Respects :
    {it : Interpreter} {tid : ThreadId} {s : MachineState} (actor : ThreadId) (s' : MachineState)
    → Respects it tid s s'
    → Post (Respects it tid s) (advance actor s')
advance-Respects actor s' x =
    Post-map (advance actor s') (advance-Kept actor s') (λ s'' k. then-Respects x (keeps k))

pub step_on-Respects :
    {it : Interpreter} {tid : ThreadId} {s : MachineState} (actor : ThreadId) (s' : MachineState)
    → Respects it tid s s'
    → Post (Fires (Respects it tid s)) (step_on actor s')
step_on-Respects actor s' x =
    Post-bind _ (advance actor s') _ (advance-Respects actor s' x) (λ s'' y. fires_ok _ s'' y)
