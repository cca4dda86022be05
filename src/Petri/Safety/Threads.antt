-- ===== src/Petri/Safety/Threads.antt =====
-- src/petri/exec.rs: creating and finishing a thread leaves the places of mutexes, semaphores and
-- channels alone.
use conc_ir.Prelude.{
  ℕ, ◌+◌, refl, Bool, true, false, Option, none, some, List, [], ◌∷◌, get_elem?, is_empty, leb,
  if◌then◌else◌,
}
use conc_ir.Prelude.Text.{Str}
use conc_ir.Prelude.Map.{get, insert, remove, nat_key, list_key, pair_key}
use conc_ir.Sem.Outcome.{
  FunctionId, ThreadId, FrameId, ScopeId, HandleId, ok, ◌>>=◌, unwrap, ok_or, invalid_error, e602,
}
use conc_ir.Sem.Program.{function, is_transparent_nobody}
use conc_ir.Interp.Ownership.Relation.{Post, Opt, Post-bind, Post-any, Post-map, Post-if, Post-ok}
use conc_ir.Petri.Net.{PlaceId, PlaceKey, Place}
use conc_ir.Petri.State.{
  NetToken, NetThread, NetFrame, NetScope, NetState, frame_of, take_token, default_locals,
  place_tokens,
}
use conc_ir.Petri.Engine.{
  Engine, place, ctrl, record_completion, place_control, place_if, clear_blocked,
}
use conc_ir.Petri.Threads.{
  with_store, finished_at_once, started, create_thread, reclaim, reclaim_all, keys_where, in_scope,
  wake_owner, resume_owner, complete_scope, leave_scope_of, leave_scope, handle_of, drop_child,
  unbind, forget_handle, or_same, wake_joiner, child_of, is_thread, joined_handle, wake_if_joins,
  wake_waiting, wake_at, wake_place, wake_joiners, finish_thread, parent_of, live_threads,
  bump_thread,
}
use conc_ir.Petri.Safety.Relation.{
  Injective, Loose, Kept, unchanged, then-Kept, same_marking-Kept, take-Kept,
}
use conc_ir.Petri.Safety.Keeping.{
  LooseOut, place_control-Kept, place_if-Kept, clear_blocked-Kept, completion-Kept, key_loose,
  ctrl_loose,
}

module _ (eng : Engine) where
  reclaim_all-Kept : (tids : List ThreadId) (s : NetState) → Kept eng s (reclaim_all tids s)
  unfolding reclaim_all
  reclaim_all-Kept [] s = unchanged eng s
  reclaim_all-Kept (tid ∷ tids) s =
      then-Kept eng (same_marking-Kept eng s _ refl) (reclaim_all-Kept tids (reclaim tid s))

  at_once-Kept :
      (func : FunctionId) (tid : ThreadId) (parent : Option ScopeId) (s : NetState)
      → Kept eng s (finished_at_once eng func tid parent s)
  at_once-Kept func tid parent s =
      then-Kept eng (same_marking-Kept eng s _ refl) (completion-Kept eng func _)

  pub drop_child-Kept :
      (j : ThreadId) (hid : HandleId) (o : Option NetThread) (s : NetState)
      → Kept eng s (drop_child j hid o s)
  drop_child-Kept j hid none s = unchanged eng s
  drop_child-Kept j hid (some t) s = same_marking-Kept eng s _ refl

  pub unbind-Kept :
      (jf : FrameId) (handle : Str) (o : Option NetFrame) (s : NetState)
      → Kept eng s (unbind jf handle o s)
  unbind-Kept jf handle none s = unchanged eng s
  unbind-Kept jf handle (some f) s = same_marking-Kept eng s _ refl

  forget-Kept :
      (j : ThreadId) (jf : FrameId) (handle : Str) (o : Option HandleId) (s : NetState)
      → Kept eng s (forget_handle j jf handle o s)
  forget-Kept j jf handle none s = unchanged eng s
  forget-Kept j jf handle (some hid) s =
      then-Kept eng (drop_child-Kept j hid (get j s.store.threads) s)
        (unbind-Kept jf handle _ (drop_child j hid (get j s.store.threads) s))

  or_same-Kept :
      (s : NetState) (o : Option NetState) → Opt (Kept eng s) o → Kept eng s (or_same s o)
  or_same-Kept s none k = unchanged eng s
  or_same-Kept s (some s') k = k

  pub at_start :
      (out : Option PlaceId) (tid : ThreadId) (fid : FrameId) (s s' : NetState)
      → LooseOut eng out
      → Kept eng s s'
      → Post
          (Kept eng s)
          (ok_or out (invalid_error e602) >>= λ start. ok (place_control eng start tid fid s'))
  unfolding Post
  at_start none tid fid s s' loose k = tt
  at_start (some pid) tid fid s s' loose k =
      then-Kept eng k (place_control-Kept eng pid tid fid s' loose)

module _ (eng : Engine) (inj : Injective eng) where
  started-Kept :
      (func : FunctionId) (tid : ThreadId) (parent : Option ScopeId) (s : NetState)
      → Post (Kept eng s) (started eng func tid parent s)
  started-Kept func tid parent s = Post-any _ (default_locals eng.program func) _ (λ locals.
      at_start eng (ctrl eng func 0) tid _ s _ (ctrl_loose eng inj func 0)
        (same_marking-Kept eng s _ refl))

  pub create-Kept :
      (func : FunctionId) (parent : Option ScopeId) (s : NetState)
      → Post (Opt (λ (c, s'). Kept eng s s')) (create_thread eng func parent s)
  unfolding create_thread Post
  create-Kept func parent s = Post-if _ (leb eng.bounds.max_threads (live_threads s)) _ _ tt (
      Post-any _ (function eng.program func) _ (λ f.
        let tid = s.store.alloc.next_thread in
        let s' = with_store s (record s.store { alloc = bump_thread s.store.alloc }) in
        let k = same_marking-Kept eng s s' refl in
        Post-if _ (is_transparent_nobody f) _ _
          (then-Kept eng k (at_once-Kept eng func tid parent s'))
          (Post-bind _ (started eng func tid parent s') _ (started-Kept func tid parent s')
            (λ s'' k'. then-Kept eng k k'))))

  wake_owner-Kept :
      (func : FunctionId) (sc : NetScope) (s : NetState) (o : Option NetState)
      → Opt (Kept eng s) o
      → Kept eng s (wake_owner eng func sc s o)
  wake_owner-Kept func sc s none k = unchanged eng s
  wake_owner-Kept func sc s (some s') k = then-Kept eng k (
      then-Kept eng
        (place_if-Kept eng (ctrl eng func (sc.owner_sid + 1)) sc.owner sc.owner_frame s'
          (ctrl_loose eng inj func (sc.owner_sid + 1)))
        (clear_blocked-Kept eng sc.owner _))

  resume_owner-Kept :
      (func : FunctionId) (sc : NetScope) (o : Option PlaceId) (s : NetState)
      → LooseOut eng o
      → Kept eng s (resume_owner eng func sc o s)
  resume_owner-Kept func sc none s loose = unchanged eng s
  resume_owner-Kept func sc (some pid) s loose =
      wake_owner-Kept func sc s (take_token pid (NetToken.scope_wait sc.owner sc.owner_frame) s)
        (take-Kept eng pid (NetToken.scope_wait sc.owner sc.owner_frame) s loose)

  complete_scope-Kept :
      (scope : ScopeId) (sc : NetScope) (s : NetState)
      → Post (Kept eng s) (complete_scope eng scope sc s)
  unfolding complete_scope
  complete_scope-Kept scope sc s = Post-any _ (frame_of s sc.owner_frame) _ (λ f.
      let key = PlaceKey.scope_wait f.function sc.owner_sid in
      let s' = with_store s (record s.store {
        completed_scopes = insert (f.function, sc.owner_sid) tt s.store.completed_scopes;
      }) in
      let s'' = resume_owner eng f.function sc (place eng key) s' in
      let tids = keys_where (in_scope scope) s''.store.threads in
      reclaimed s'' tids (
        then-Kept eng (same_marking-Kept eng s s' refl)
          (resume_owner-Kept f.function sc (place eng key) s' (key_loose eng inj key refl))))
    where
      reclaimed :
          (s'' : NetState) (tids : List ThreadId)
          → Kept eng s s''
          → Post (Kept eng s) (
              let s''' = reclaim_all tids s'' in
              ok (with_store s''' (record s'''.store { scopes = remove scope s'''.store.scopes })))
      reclaimed s'' tids k = Post-ok (Kept eng s) _ (
          then-Kept eng k (
            then-Kept eng (reclaim_all-Kept eng tids s'')
              (same_marking-Kept eng (reclaim_all tids s'') _ refl)))

  leave_of-Kept :
      (tid : ThreadId) (scope : ScopeId) (o : Option NetScope) (s : NetState)
      → Post (Kept eng s) (leave_scope_of eng tid scope o s)
  unfolding Post
  leave_of-Kept tid scope none s = unchanged eng s
  leave_of-Kept tid scope (some sc) s =
      let sc' = record sc { remaining = remove tid sc.remaining } in
      let s' = with_store s (record s.store { scopes = insert scope sc' s.store.scopes }) in
      Post-if _ (is_empty sc'.remaining) _ _
        (Post-map (complete_scope eng scope sc' s') (complete_scope-Kept scope sc' s')
          (λ s'' k. then-Kept eng (same_marking-Kept eng s s' refl) k))
        (same_marking-Kept eng s s' refl)

  leave-Kept :
      (tid : ThreadId) (o : Option ScopeId) (s : NetState)
      → Post (Kept eng s) (leave_scope eng tid o s)
  unfolding Post
  leave-Kept tid none s = unchanged eng s
  leave-Kept tid (some scope) s = leave_of-Kept tid scope (get scope s.store.scopes) s

  wake_joiner-Kept :
      (tid : ThreadId) (pid : PlaceId) (func : FunctionId) (sid : ℕ) (handle : Str) (j : ThreadId)
      (jf : FrameId) (s : NetState)
      → Loose eng pid
      → Kept eng s (wake_joiner eng tid pid func sid handle j jf s)
  unfolding wake_joiner
  wake_joiner-Kept tid pid func sid handle j jf s loose =
      let a = or_same s (take_token pid (NetToken.join_wait j jf) s) in
      let b = place_if eng (ctrl eng func (sid + 1)) j jf a in
      let c = clear_blocked j b in
      let hid = handle_of handle (get jf c.store.frames) in
      then-Kept eng
        (or_same-Kept eng s (take_token pid (NetToken.join_wait j jf) s)
          (take-Kept eng pid (NetToken.join_wait j jf) s loose))
        (then-Kept eng
          (place_if-Kept eng (ctrl eng func (sid + 1)) j jf a (ctrl_loose eng inj func (sid + 1)))
          (then-Kept eng (clear_blocked-Kept eng j b) (
            then-Kept eng (forget-Kept eng j jf handle hid c)
              (same_marking-Kept eng (forget_handle j jf handle hid c) _ refl))))

  wake_if-Kept :
      (tid : ThreadId) (pid : PlaceId) (func : FunctionId) (sid : ℕ) (o : Option Str) (j : ThreadId)
      (jf : FrameId) (s : NetState)
      → Loose eng pid
      → Kept eng s (wake_if_joins eng tid pid func sid o j jf s)
  wake_if-Kept tid pid func sid none j jf s loose = unchanged eng s
  wake_if-Kept tid pid func sid (some handle) j jf s loose =
      choose (
        is_thread (child_of (handle_of handle (get jf s.store.frames)) (get j s.store.threads)) tid)
    where
      choose :
          (b : Bool) → Kept eng s (if b then wake_joiner eng tid pid func sid handle j jf s else s)
      choose true = wake_joiner-Kept tid pid func sid handle j jf s loose
      choose false = unchanged eng s

  waiting-Kept :
      (tid : ThreadId) (pid : PlaceId) (func : FunctionId) (sid : ℕ) (ts : List NetToken)
      (s : NetState)
      → Loose eng pid
      → Post (Kept eng s) (wake_waiting eng tid pid func sid ts s)
  unfolding wake_waiting Post
  waiting-Kept tid pid func sid [] s loose = unchanged eng s
  waiting-Kept tid pid func sid (NetToken.join_wait j jf ∷ ts) s loose =
      Post-any _ (function eng.program func) _ (λ f.
        Post-any _ (unwrap (get_elem? f.body sid)) _ (λ stmt.
          let handle = joined_handle stmt.op in
          Post-map (wake_waiting eng tid pid func sid ts _)
            (waiting-Kept tid pid func sid ts (wake_if_joins eng tid pid func sid handle j jf s)
              loose)
            (λ s' k. then-Kept eng (wake_if-Kept tid pid func sid handle j jf s loose) k)))
  waiting-Kept tid pid func sid (NetToken.control t f ∷ ts) s loose =
      waiting-Kept tid pid func sid ts s loose
  waiting-Kept tid pid func sid (NetToken.datum v ∷ ts) s loose =
      waiting-Kept tid pid func sid ts s loose
  waiting-Kept tid pid func sid (NetToken.mutex m ∷ ts) s loose =
      waiting-Kept tid pid func sid ts s loose
  waiting-Kept tid pid func sid (NetToken.lock_wait t f ∷ ts) s loose =
      waiting-Kept tid pid func sid ts s loose
  waiting-Kept tid pid func sid (NetToken.condvar_wait t f l ∷ ts) s loose =
      waiting-Kept tid pid func sid ts s loose
  waiting-Kept tid pid func sid (NetToken.send_wait t f v ∷ ts) s loose =
      waiting-Kept tid pid func sid ts s loose
  waiting-Kept tid pid func sid (NetToken.recv_wait t f ∷ ts) s loose =
      waiting-Kept tid pid func sid ts s loose
  waiting-Kept tid pid func sid (NetToken.sem_wait t f n ∷ ts) s loose =
      waiting-Kept tid pid func sid ts s loose
  waiting-Kept tid pid func sid (NetToken.scope_wait t f ∷ ts) s loose =
      waiting-Kept tid pid func sid ts s loose

  wake_at-Kept :
      (tid : ThreadId) (func : FunctionId) (sid : ℕ) (o : Option PlaceId) (s : NetState)
      → LooseOut eng o
      → Post (Kept eng s) (wake_at eng tid func sid o s)
  unfolding Post
  wake_at-Kept tid func sid none s loose = unchanged eng s
  wake_at-Kept tid func sid (some pid) s loose =
      waiting-Kept tid pid func sid (place_tokens pid s) s loose

  wake_place-Kept :
      (tid : ThreadId) (key : PlaceKey) (s : NetState)
      → Post (Kept eng s) (wake_place eng tid key s)
  unfolding Post
  wake_place-Kept tid (PlaceKey.join_wait func sid) s =
      wake_at-Kept tid func sid (place eng (PlaceKey.join_wait func sid)) s
        (key_loose eng inj (PlaceKey.join_wait func sid) refl)
  wake_place-Kept tid (PlaceKey.control f sid) s = unchanged eng s
  wake_place-Kept tid (PlaceKey.var r) s = unchanged eng s
  wake_place-Kept tid (PlaceKey.atomic r) s = unchanged eng s
  wake_place-Kept tid (PlaceKey.mutex r) s = unchanged eng s
  wake_place-Kept tid (PlaceKey.semaphore r) s = unchanged eng s
  wake_place-Kept tid (PlaceKey.channel r) s = unchanged eng s
  wake_place-Kept tid (PlaceKey.channel_send r) s = unchanged eng s
  wake_place-Kept tid (PlaceKey.channel_recv r) s = unchanged eng s
  wake_place-Kept tid (PlaceKey.condvar r) s = unchanged eng s
  wake_place-Kept tid (PlaceKey.lock_wait r) s = unchanged eng s
  wake_place-Kept tid (PlaceKey.sem_wait r) s = unchanged eng s
  wake_place-Kept tid (PlaceKey.scope_wait f sid) s = unchanged eng s

  joiners-Kept :
      (tid : ThreadId) (ps : List Place) (s : NetState)
      → Post (Kept eng s) (wake_joiners eng tid ps s)
  unfolding wake_joiners Post
  joiners-Kept tid [] s = unchanged eng s
  joiners-Kept tid (p ∷ ps) s =
      Post-bind _ (wake_place eng tid p.key s) _ (wake_place-Kept tid p.key s) (λ s' k.
        Post-map (wake_joiners eng tid ps s') (joiners-Kept tid ps s')
          (λ s'' k'. then-Kept eng k k'))

  pub finish-Kept :
      (tid : ThreadId) (func : FunctionId) (s : NetState)
      → Post (Kept eng s) (finish_thread eng tid func s)
  unfolding finish_thread
  finish-Kept tid func s =
      let a = with_store s (record s.store { finished = insert tid tt s.store.finished }) in
      let b = record_completion eng func a in
      let parent = parent_of (get tid b.store.threads) in
      Post-bind _ (leave_scope eng tid parent b) _ (leave-Kept tid parent b) (λ c k.
        Post-map (wake_joiners eng tid eng.net.places c) (joiners-Kept tid eng.net.places c)
          (λ d k'.
            then-Kept eng
              (then-Kept eng (same_marking-Kept eng s a refl) (completion-Kept eng func a))
              (then-Kept eng k k')))
