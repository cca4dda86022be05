-- ===== src/Petri/Safety/Reached.antt =====
-- src/petri/exec.rs: what holds of every step and of every state that the net of a program reaches.
use conc_ir.Prelude.{
  ℕ, suc, ◌≡◌, refl, sym, ap, ◌∙◌, subst, Bool, true, false, Option, none, some, List, [], ◌∷◌,
  head?, get_elem?, In, if◌then◌else◌, arith,
}
use conc_ir.Prelude.Int.{pos, leb_ℤ}
use conc_ir.Prelude.Map.{get, nat_key, same, same_sound}
use conc_ir.Sem.Outcome.{
  FunctionId, ResourceId, ThreadId, Result, ok, err, panic, ◌>>=◌, ok_or, invalid_error, e602,
}
use conc_ir.Sem.Value.{Value, int, as_int, array, no_items}
use conc_ir.Sem.Program.{SemProgram, SemResource, function, resource, is_transparent_nobody}
use conc_ir.Sem.System.{Step, Enabled}
use conc_ir.Interp.Ownership.Relation.{Post, Post-bind, Post-any, Post-map, Post-if, Post-ok}
use conc_ir.Petri.Net.{PlaceId, PlaceKey, place_key, Place}
use conc_ir.Petri.State.{
  NetToken, NetState, place_tokens, set_single, set_data, set_mutex, default_locals, as_data,
}
use conc_ir.Petri.Engine.{Engine, place, ctrl, place_control}
use conc_ir.Petri.Channels.{as_buffer, buffered}
use conc_ir.Petri.System.{
  init_data, init_place, init_places, empty_state, entry_started, initial, successors,
}
use conc_ir.Petri.Safety.Relation.{
  NonNegative, FitsCapacity, Change, Kept, Steps, then-Kept, same_marking-Kept, kept-Steps,
  tokens-insert,
}
use conc_ir.Petri.Safety.Keeping.{completion-Kept, ctrl_loose}
use conc_ir.Petri.Safety.Threads.{at_start}
use conc_ir.Petri.Safety.Reach.{injective, step-Steps}
use conc_ir.Petri.WellFormed.Program.{IsWellFormedNet}

-- The states that the net reaches.
pub data NetRuns (eng : Engine) : NetState → Type 0 where
  begin : (s : NetState) → initial eng ≡ ok s → NetRuns eng s
  move :
      (s : NetState) (en : Enabled NetState) (st : Step NetState)
      → NetRuns eng s
      → successors eng s ≡ ok en
      → In st en.steps
      → NetRuns eng st.state

-- The tokens of semaphores count no negative permits, and those of channels fit the capacity.
unfoldable pub Holds : Engine → PlaceKey → List NetToken → Type 0
Holds eng (PlaceKey.semaphore r) ts = NonNegative ts
Holds eng (PlaceKey.channel r) ts = FitsCapacity (resource eng.program r) ts
Holds eng _ ts = Unit {0}

pub record Sound (eng : Engine) (s : NetState) : Type 0 where
  pub holds :
      (key : PlaceKey) (pid : PlaceId)
      → place eng key ≡ some pid
      → Holds eng key (place_tokens pid s)

-- No semaphore of the program starts with negative permits.
abbrev pub PermitsNonNegative : SemProgram → Type 0
PermitsNonNegative p =
    (r : ResourceId) (res : SemResource) → resource p r ≡ ok res → leb_ℤ (pos 0) res.permits ≡ true

module _ (eng : Engine) where
  Holds-Change :
      (tid : ThreadId) (key : PlaceKey) (ts us : List NetToken)
      → Change eng tid key ts us
      → Holds eng key ts
      → Holds eng key us
  unfolding Change Holds
  Holds-Change tid (PlaceKey.semaphore r) ts us c h = c h
  Holds-Change tid (PlaceKey.channel r) ts us c h = c h
  Holds-Change tid _ ts us c h = tt

  Sound-Steps : (tid : ThreadId) (s s' : NetState) → Steps eng tid s s' → Sound eng s → Sound eng s'
  Sound-Steps tid s s' x y = record {
    holds = λ key pid e. Holds-Change tid key _ _ (x.change key pid e) (y.holds key pid e);
  }

  capacity_zero :
      (r : Result SemResource) (t : List NetToken)
      → buffered (as_buffer (as_data (head? t))) ≡ 0
      → FitsCapacity r t
  capacity_zero panic t e = tt
  capacity_zero (err x) t e = tt
  capacity_zero (ok res) t e = omega arith

  empty-Holds : (key : PlaceKey) → Holds eng key []
  unfolding Holds
  empty-Holds (PlaceKey.semaphore r) = refl
  empty-Holds (PlaceKey.channel r) = capacity_zero (resource eng.program r) [] refl
  empty-Holds _ = tt

  empty-Sound : Sound eng empty_state
  unfolding place_tokens get
  empty-Sound = record { holds = λ key pid e. empty-Holds key }

module _ (eng : Engine) (w : IsWellFormedNet eng.net)
    (nonneg : PermitsNonNegative eng.program) where
  -- One token that the key of its place may have.
  set-Sound :
      (key : PlaceKey) (pid : PlaceId) (t : NetToken) (s : NetState)
      → place eng key ≡ some pid
      → Holds eng key (t ∷ [])
      → Sound eng s
      → Sound eng (set_single pid t s)
  unfolding set_single
  set-Sound key pid t s e h x = record {
    holds = λ key' pid' e'.
        subst (Holds eng key') (sym (tokens-insert eng pid pid' (t ∷ []) s))
          (choose key' pid' e' (same pid pid') refl);
  }
    where
      choose :
          (key' : PlaceKey) (pid' : PlaceId)
          → place eng key' ≡ some pid'
          → (b : Bool) → same pid pid' ≡ b
          → Holds eng key' (if b then t ∷ [] else place_tokens pid' s)
      choose key' pid' e' true q =
          subst (λ k. Holds eng k (t ∷ []))
            (injective eng w key key' pid' (e ∙ ap some (same_sound pid pid' q)) e') h
      choose key' pid' e' false q = x.holds key' pid' e'

  data-Sound :
      (key : PlaceKey) (pid : PlaceId) (o : Option Value) (s : NetState)
      → place eng key ≡ some pid
      → ((v : Value) → Holds eng key (NetToken.datum v ∷ []))
      → Sound eng s
      → Sound eng (init_data pid o s)
  unfolding set_data
  data-Sound key pid none s e h x = x
  data-Sound key pid (some v) s e h x = set-Sound key pid _ s e (h v) x

  permits-Sound :
      (r : ResourceId) (pid : PlaceId) (s : NetState)
      → place eng (PlaceKey.semaphore r) ≡ some pid
      → Sound eng s
      → (o : Result SemResource) → resource eng.program r ≡ o
      → Post (Sound eng) (o >>= λ res. ok (set_data pid (int res.permits) s))
  unfolding set_data Post Holds as_int
  permits-Sound r pid s e x panic q = tt
  permits-Sound r pid s e x (err y) q = tt
  permits-Sound r pid s e x (ok res) q =
      set-Sound (PlaceKey.semaphore r) pid _ s e (nonneg r res q) x

  init_place-Sound :
      (p : Place) (s : NetState)
      → place eng p.key ≡ some p.id
      → Sound eng s
      → Post (Sound eng) (init_place eng p s)
  unfolding init_place Post Holds set_mutex set_data
  init_place-Sound p s e x = by_key p.key refl e
    where
      by_key :
          (key : PlaceKey)
          → p.key ≡ key
          → place eng key ≡ some p.id
          → Post (Sound eng) (init_place eng p s)
      by_key (PlaceKey.control f sid) q e' = rw q x
      by_key (PlaceKey.var r) q e' = rw q (
          Post-any _ (resource eng.program r) _
            (λ res. data-Sound (PlaceKey.var r) p.id res.init s e' (λ v. tt) x))
      by_key (PlaceKey.atomic r) q e' = rw q (
          Post-any _ (resource eng.program r) _
            (λ res. data-Sound (PlaceKey.atomic r) p.id res.init s e' (λ v. tt) x))
      by_key (PlaceKey.mutex r) q e' = rw q (set-Sound (PlaceKey.mutex r) p.id _ s e' tt x)
      by_key (PlaceKey.semaphore r) q e' =
          rw q (permits-Sound r p.id s e' x (resource eng.program r) refl)
      by_key (PlaceKey.channel r) q e' = rw q (
          set-Sound (PlaceKey.channel r) p.id _ s e'
            (capacity_zero eng (resource eng.program r) (NetToken.datum (array no_items) ∷ []) refl)
            x)
      by_key (PlaceKey.channel_send r) q e' = rw q x
      by_key (PlaceKey.channel_recv r) q e' = rw q x
      by_key (PlaceKey.condvar r) q e' = rw q x
      by_key (PlaceKey.lock_wait r) q e' = rw q x
      by_key (PlaceKey.sem_wait r) q e' = rw q x
      by_key (PlaceKey.join_wait f sid) q e' = rw q x
      by_key (PlaceKey.scope_wait f sid) q e' = rw q x

  init_places-Sound :
      (ps : List Place) (s : NetState)
      → ((i : ℕ) (p : Place) → get_elem? ps i ≡ some p → place eng p.key ≡ some p.id)
      → Sound eng s
      → Post (Sound eng) (init_places eng ps s)
  unfolding init_places Post
  init_places-Sound [] s h x = x
  init_places-Sound (p ∷ ps) s h x =
      Post-bind _ (init_place eng p s) _ (init_place-Sound p s (h 0 p refl) x)
        (λ s' x'. init_places-Sound ps s' (λ i q e. h (suc i) q e) x')

  Sound-Kept : (s s' : NetState) → Kept eng s s' → Sound eng s → Sound eng s'
  Sound-Kept s s' k x = Sound-Steps eng 0 s s' (kept-Steps eng 0 k) x

  entry-Sound :
      (entry : FunctionId) (s : NetState)
      → Sound eng s
      → Post (Sound eng) (entry_started eng entry s)
  entry-Sound entry s x = Post-any _ (default_locals eng.program entry) _ (λ locals.
      Post-map
        (ok_or (ctrl eng entry 0) (invalid_error e602) >>= λ start.
          ok (place_control eng start 0 0 _))
        (at_start eng (ctrl eng entry 0) 0 0 s _ (ctrl_loose eng (injective eng w) entry 0)
          (same_marking-Kept eng s _ refl))
        (λ s' k. Sound-Kept s s' k x))

  initial-Sound : Post (Sound eng) (initial eng)
  unfolding initial place
  initial-Sound =
      Post-bind _ (init_places eng eng.net.places empty_state) _
        (init_places-Sound eng.net.places empty_state
          (λ i p e. let q = w.formed.placed i p e in q.1 ∙ ap some (sym (q.0))) (empty-Sound eng))
        (λ s x. Post-any _ (function eng.program eng.program.entry) _ (λ f.
          Post-if _ (is_transparent_nobody f) _ _
            (Post-ok (Sound eng) _ (
              Sound-Kept s _
                (then-Kept eng (same_marking-Kept eng s _ refl) (completion-Kept eng _ _)) x))
            (entry-Sound eng.program.entry s x)))

  pub runs-Sound : (s : NetState) → NetRuns eng s → Sound eng s
  unfolding Post
  runs-Sound s (begin _ e) = subst (Post (Sound eng)) e initial-Sound
  runs-Sound _ (move s en st r e i) =
      let (tid, named, x) = step-Steps eng w s en st e i in
      Sound-Steps eng tid s st.state x (runs-Sound s r)
