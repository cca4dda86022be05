-- ===== src/Petri/Safety/Keeping.antt =====
-- src/petri/exec.rs: the helpers of a firing leave the places of mutexes, semaphores and channels alone.
use conc_ir.Prelude.{ℕ, ◌+◌, ◌==◌, ◌≡◌, refl, Bool, true, false, Option, none, some, if◌then◌else◌}
use conc_ir.Prelude.Map.{get, nat_key}
use conc_ir.Sem.Outcome.{
  FunctionId, ResourceId, ThreadId, FrameId, SlotRef, local, shared, discard, Result, ok, err,
  ◌>>=◌, unwrap, ok_or, invalid_error, e602, e900, BackendError, BoundaryKind,
}
use conc_ir.Sem.Value.{Value}
use conc_ir.Sem.Monitor.{max_for}
use conc_ir.Interp.Ownership.Relation.{Post, Opt, Post-bind, Post-any, Post-if}
use conc_ir.Petri.Net.{PlaceId, PlaceKey, place_key}
use conc_ir.Petri.State.{
  NetToken, token_ids, NetFrame, NetThread, NetStore, NetState, frame_of, set_data, shared_place,
  or_key,
}
use conc_ir.Petri.Engine.{
  Engine, Fired, disabled, limited, fires, if_some, record_completion, place, ctrl,
  write_blocked_at, set_blocked, clear_blocked, write_pc, place_control, put_control_next, place_if,
  wake_next, wake_control_next, dst_type_ok, write_local, write_checked, write_dst, recv_dst,
  deliver, deliver_to, move_on, wait_at,
}
use conc_ir.Petri.Safety.Relation.{
  Fires, Injective, is_sync, Loose, Kept, Steps, unchanged, then-Kept, same_marking-Kept,
  kept-Steps, Steps-then, put-Kept, set-Kept, Loose-key,
}

-- A place that may be missing is loose.
abbrev pub LooseOut : Engine → Option PlaceId → Type 0
LooseOut eng out = Opt (Loose eng) out

module _ (eng : Engine) where
  blocked_at-Kept :
      (tid : ThreadId) (key : Option PlaceKey) (o : Option NetThread) (s : NetState)
      → Kept eng s (write_blocked_at tid key o s)
  blocked_at-Kept tid key none s = unchanged eng s
  blocked_at-Kept tid key (some t) s = same_marking-Kept eng s _ refl

  pub set_blocked-Kept :
      (tid : ThreadId) (key : PlaceKey) (s : NetState) → Kept eng s (set_blocked tid key s)
  unfolding set_blocked
  set_blocked-Kept tid key s = blocked_at-Kept tid _ (get tid s.store.threads) s

  pub clear_blocked-Kept : (tid : ThreadId) (s : NetState) → Kept eng s (clear_blocked tid s)
  unfolding clear_blocked
  clear_blocked-Kept tid s = blocked_at-Kept tid _ (get tid s.store.threads) s

  write_pc-Kept :
      (fid : FrameId) (sid : Option ℕ) (o : Option NetFrame) (s : NetState)
      → Kept eng s (write_pc fid sid o s)
  write_pc-Kept fid none o s = unchanged eng s
  write_pc-Kept fid (some sid) none s = unchanged eng s
  write_pc-Kept fid (some sid) (some f) s = same_marking-Kept eng s _ refl

  pub place_control-Kept :
      (pid : PlaceId) (tid : ThreadId) (fid : FrameId) (s : NetState)
      → Loose eng pid
      → Kept eng s (place_control eng pid tid fid s)
  unfolding place_control
  place_control-Kept pid tid fid s loose =
      then-Kept eng (write_pc-Kept fid _ (get fid s.store.frames) s) (put-Kept eng pid _ _ loose)

  pub place_if-Kept :
      (out : Option PlaceId) (tid : ThreadId) (fid : FrameId) (s : NetState)
      → LooseOut eng out
      → Kept eng s (place_if eng out tid fid s)
  place_if-Kept none tid fid s loose = unchanged eng s
  place_if-Kept (some pid) tid fid s loose = place_control-Kept pid tid fid s loose

  pub completion-Kept :
      (func : FunctionId) (s : NetState) → Kept eng s (record_completion eng func s)
  unfolding record_completion
  completion-Kept func s = choose (max_for eng.monitor func == 0) _
    where
      choose :
          (b : Bool) (store : NetStore) → Kept eng s (if b then s else record s { store = store })
      choose true store = unchanged eng s
      choose false store = same_marking-Kept eng s _ refl

  pub write_local-Kept :
      (fid : FrameId) (slot : ℕ) (v : Value) (s : NetState)
      → Post (Kept eng s) (write_local fid slot v s)
  unfolding write_local Post
  write_local-Kept fid slot v s =
      Post-any _ (frame_of s fid) _ (λ f. same_marking-Kept eng s _ refl)

  -- The ends of a firing.
  pub disabled_ok : (P : NetState → Type 0) → Post (Fires P) disabled
  unfolding Post
  disabled_ok P = tt

  pub limited_ok : (P : NetState → Type 0) (kind : BoundaryKind) → Post (Fires P) (limited kind)
  unfolding Post
  limited_ok P kind = tt

  pub error_ok : (P : NetState → Type 0) (e : BackendError) → Post (Fires P) (err e)
  unfolding Post
  error_ok P e = tt

  pub fires_ok : (P : NetState → Type 0) (s : NetState) → P s → Post (Fires P) (fires s)
  unfolding Post
  fires_ok P s p = p

  pub if_some_ok :
      (P Q : NetState → Type 0) (rest : NetState → Result Fired) (o : Option NetState)
      → Opt P o
      → ((s : NetState) → P s → Post (Fires Q) (rest s))
      → Post (Fires Q) (if_some rest o)
  if_some_ok P Q rest none p k = disabled_ok Q
  if_some_ok P Q rest (some s) p k = k s p

  pub move_on_ok :
      (actor : ThreadId) (out : Option PlaceId) (tid : ThreadId) (fid : FrameId) (s s' : NetState)
      → LooseOut eng out
      → Steps eng actor s s'
      → Post (Fires (Steps eng actor s)) (move_on eng out tid fid s')
  unfolding move_on Post
  move_on_ok actor none tid fid s s' loose x = tt
  move_on_ok actor (some pid) tid fid s s' loose x =
      Steps-then eng actor x (place_control-Kept pid tid fid s' loose)

  pub wait_at_ok :
      (actor : ThreadId) (out : Option PlaceId) (token : NetToken) (tid : ThreadId) (key : PlaceKey)
      (s : NetState)
      → LooseOut eng out
      → Post (Fires (Steps eng actor s)) (wait_at out token tid key s)
  unfolding wait_at Post
  wait_at_ok actor none token tid key s loose = tt
  wait_at_ok actor (some pid) token tid key s loose =
      kept-Steps eng actor
        (then-Kept eng (put-Kept eng pid token s loose) (set_blocked-Kept tid key _))

module _ (eng : Engine) (inj : Injective eng) where
  pub key_loose : (key : PlaceKey) → is_sync key ≡ false → LooseOut eng (place eng key)
  key_loose key h = choose (place eng key) refl
    where
      choose : (o : Option PlaceId) → place eng key ≡ o → LooseOut eng o
      choose none e = tt
      choose (some pid) e = Loose-key eng inj key pid e h

  pub ctrl_loose : (f : FunctionId) (sid : ℕ) → LooseOut eng (ctrl eng f sid)
  unfolding ctrl
  ctrl_loose f sid = key_loose (PlaceKey.control f sid) refl

  next-Kept :
      (tid : ThreadId) (fid : FrameId) (out : Option PlaceId) (s : NetState)
      → LooseOut eng out
      → Post (Kept eng s) (
          ok_or out (invalid_error e602) >>= λ pid.
          ok (clear_blocked tid (place_control eng pid tid fid s)))
  unfolding Post
  next-Kept tid fid none s loose = tt
  next-Kept tid fid (some pid) s loose =
      then-Kept eng (place_control-Kept eng pid tid fid s loose) (clear_blocked-Kept eng tid _)

  pub put_next-Kept :
      (token : NetToken) (s : NetState) → Post (Kept eng s) (put_control_next eng token s)
  unfolding put_control_next
  put_next-Kept token s = Post-any _ (unwrap (token_ids token)) _ (λ ids.
      Post-any _ (frame_of s (ids.1)) _
        (λ f. next-Kept (ids.0) (ids.1) _ s (ctrl_loose f.function (f.pc + 1))))

  wake_next-Kept :
      (o : Option (ThreadId × FrameId)) (s : NetState) → Post (Kept eng s) (wake_next eng o s)
  unfolding Post
  wake_next-Kept none s = unchanged eng s
  wake_next-Kept (some (tid, fid)) s = Post-any _ (frame_of s fid) _ (λ f.
      then-Kept eng
        (place_if-Kept eng (ctrl eng f.function (f.pc + 1)) tid fid s
          (ctrl_loose f.function (f.pc + 1)))
        (clear_blocked-Kept eng tid _))

  pub wake-Kept :
      (token : NetToken) (s : NetState) → Post (Kept eng s) (wake_control_next eng token s)
  unfolding wake_control_next
  wake-Kept token s = wake_next-Kept (token_ids token) s

  shared_loose : (r : ResourceId) → LooseOut eng (shared_place eng.net r)
  unfolding shared_place place
  shared_loose r =
      choose (get (PlaceKey.var r) eng.net.place_of) (get (PlaceKey.atomic r) eng.net.place_of)
        (key_loose (PlaceKey.var r) refl) (key_loose (PlaceKey.atomic r) refl)
    where
      choose : (a b : Option PlaceId) → LooseOut eng a → LooseOut eng b → LooseOut eng (or_key a b)
      choose none b x y = y
      choose (some pid) b x y = x

  shared-Kept :
      (out : Option PlaceId) (v : Value) (s : NetState)
      → LooseOut eng out
      → Post (Kept eng s) (ok_or out (invalid_error e900) >>= λ pid. ok (set_data pid v s))
  unfolding Post set_data
  shared-Kept none v s loose = tt
  shared-Kept (some pid) v s loose = set-Kept eng pid _ s loose

  checked-Kept :
      (fid : FrameId) (dst : SlotRef) (v : Value) (s : NetState)
      → Post (Kept eng s) (write_checked eng fid dst v s)
  unfolding Post
  checked-Kept fid discard v s = unchanged eng s
  checked-Kept fid (local slot) v s = write_local-Kept eng fid slot v s
  checked-Kept fid (shared r) v s = shared-Kept _ v s (shared_loose r)

  pub write_dst-Kept :
      (fid : FrameId) (dst : SlotRef) (v : Value) (s : NetState)
      → Post (Opt (Kept eng s)) (write_dst eng fid dst v s)
  unfolding write_dst Post
  write_dst-Kept fid dst v s = Post-any _ (dst_type_ok eng s fid dst v) _ (λ fits.
      Post-if _ fits _ _
        (Post-bind _ (write_checked eng fid dst v s) _ (checked-Kept fid dst v s) (λ s' k. k)) tt)

  deliver-Kept :
      (fid : FrameId) (dst : Option SlotRef) (v : Value) (s : NetState)
      → Post (Opt (Kept eng s)) (deliver eng fid dst v s)
  unfolding Post
  deliver-Kept fid none v s = unchanged eng s
  deliver-Kept fid (some discard) v s = unchanged eng s
  deliver-Kept fid (some (local slot)) v s = write_dst-Kept fid (local slot) v s
  deliver-Kept fid (some (shared r)) v s = write_dst-Kept fid (shared r) v s

  pub deliver_to-Kept :
      (fid : FrameId) (v : Value) (s : NetState) → Post (Opt (Kept eng s)) (deliver_to eng fid v s)
  unfolding deliver_to
  deliver_to-Kept fid v s = Post-any _ (recv_dst eng s fid) _ (λ dst. deliver-Kept fid dst v s)
