-- ===== src/Petri/System.antt =====
-- src/petri/exec.rs: the net of a program as a transition system.
use conc_ir.Prelude.{
  ◌==◌, Bool, true, false, not, Option, none, some, List, [], ◌∷◌, ◌++◌, head?, any, every, leb,
  if◌then◌else◌,
}
use conc_ir.Prelude.Int.{pos, leb_ℤ, ltb_ℤ}
use conc_ir.Prelude.Map.{Map, get, insert, nat_key, pair_key}
use conc_ir.Sem.Outcome.{
  FunctionId, ResourceId, ThreadId, FrameId, StepLabel, Result, ok, ◌>>=◌, ok_or, invalid_error,
  e602, AnalysisBounds,
}
use conc_ir.Sem.Value.{Value, int, array, Items, no_items, items_len, value_eq}
use conc_ir.Sem.Eval.{Host}
use conc_ir.Sem.Program.{SemProgram, mutex, semaphore, function, resource, is_transparent_nobody}
use conc_ir.Sem.Monitor.{MonitorConfig, get_or}
use conc_ir.Sem.System.{
  Step, Enabled, Predicate, Predicates, compare_values, truth, falsity, var_eq, var_cmp,
  function_completed, function_completed_at_least, scope_completed, statement_reached, mutex_free,
  mutex_held, holds_all, mutex_exclusive, never_holds_all, channel_empty, channel_at_least,
  negation, conjunction, disjunction, no_predicates, predicate,
}
use conc_ir.Interp.State.{is_some}
use conc_ir.Interp.Machine.{var_is, var_compares}
use conc_ir.Petri.Net.{PlaceId, PlaceKey, Place, Binding, Transition}
use conc_ir.Petri.State.{
  MutexToken, free, held, NetToken, token_ids, NetFrame, NetThread, NetState, place_tokens,
  set_data, set_mutex, read_data, read_mutex, default_locals, shared_place, read_at,
}
use conc_ir.Petri.Build.{build}
use conc_ir.Petri.Engine.{Engine, Fired, record_completion, place, ctrl, place_control}
use conc_ir.Petri.Threads.{is_finished_in, with_store, new_thread}
use conc_ir.Petri.Sync.{is_free, is_held}
use conc_ir.Petri.Fire.{FireBind, fire}

unfoldable pub new_engine : SemProgram → AnalysisBounds → MonitorConfig → Host → Result Engine
unfolding build
new_engine p bounds monitor host = do
  net ← build p
  ok (record { program = p; net = net; bounds = bounds; monitor = monitor; host = host })

abbrev pub init_data : PlaceId → Option Value → NetState → NetState
init_data pid none s = s
init_data pid (some v) s = set_data pid v s

unfoldable pub init_place : Engine → Place → NetState → Result NetState
unfolding resource set_data set_mutex
init_place eng p s = elim p.key [
  | PlaceKey.var r ↦ do res ← resource eng.program r; ok (init_data p.id res.init s)
  | PlaceKey.atomic r ↦ do res ← resource eng.program r; ok (init_data p.id res.init s)
  | PlaceKey.mutex r ↦ ok (set_mutex p.id free s)
  | PlaceKey.semaphore r ↦ do res ← resource eng.program r; ok (set_data p.id (int res.permits) s)
  | PlaceKey.channel r ↦ ok (set_data p.id (array no_items) s)
  | _ ↦ ok s
]

unfoldable pub init_places : Engine → List Place → NetState → Result NetState
unfolding init_place
init_places eng [] s = ok s
init_places eng (p ∷ ps) s = init_place eng p s >>= λ s'. init_places eng ps s'

abbrev pub empty_state : NetState
empty_state = record {
  marking = [];
  store = record {
    frames = [];
    threads = [];
    scopes = [];
    finished = [];
    completed_functions = [];
    completed_scopes = [];
    reached = [];
    alloc = record { next_thread = 0; next_frame = 0; next_scope = 0; next_handle = 0 };
  };
}

abbrev pub entry_finished : Engine → FunctionId → NetState → NetState
entry_finished eng entry s = record_completion eng entry (
    with_store s (record s.store {
      threads = insert 0 (new_thread entry [] none) s.store.threads;
      finished = insert 0 tt s.store.finished;
      alloc = record s.store.alloc { next_thread = 1 };
    }))

abbrev pub entry_started : Engine → FunctionId → NetState → Result NetState
entry_started eng entry s = do
  locals ← default_locals eng.program entry
  start ← ok_or (ctrl eng entry 0) (invalid_error e602)
  ok (
      place_control eng start 0 0 (
        with_store s (record s.store {
          threads = insert 0 (new_thread entry (0 ∷ []) none) s.store.threads;
          alloc = record s.store.alloc { next_thread = 1; next_frame = 1 };
          frames =
              insert 0
                (record {
                  id = 0;
                  function = entry;
                  pc = 0;
                  locals = locals;
                  handles = [];
                  ret = none;
                })
                s.store.frames;
        })))

unfoldable pub initial : Engine → Result NetState
unfolding init_places function is_transparent_nobody record_completion default_locals ctrl
    place_control
initial eng = do
  s ← init_places eng eng.net.places empty_state
  let entry = eng.program.entry
  f ← function eng.program entry
  if is_transparent_nobody f then ok (entry_finished eng entry s) else entry_started eng entry s

abbrev pub ids_or_zero : Option (ThreadId × FrameId) → ThreadId × FrameId
ids_or_zero none = (0, 0)
ids_or_zero (some ids) = ids

-- The thread and the frame of a binding's first token.
unfoldable pub binding_ids : FireBind → ThreadId × FrameId
unfolding token_ids
binding_ids (FireBind.control tid fid) = (tid, fid)
binding_ids (FireBind.control_wait tid fid w) = (tid, fid)
binding_ids (FireBind.control_choose_wait tid fid w) = (tid, fid)
binding_ids (FireBind.wait token) = ids_or_zero (token_ids token)
binding_ids (FireBind.pair a b) = ids_or_zero (token_ids a)

abbrev pub control_tokens : List NetToken → List (ThreadId × FrameId)
control_tokens [] = []
control_tokens (NetToken.control tid fid ∷ ts) = (tid, fid) ∷ control_tokens ts
control_tokens (t ∷ ts) = control_tokens ts

abbrev pub control_binds : List (ThreadId × FrameId) → List FireBind
control_binds [] = []
control_binds ((tid, fid) ∷ ids) = FireBind.control tid fid ∷ control_binds ids

abbrev pub wait_binds : List NetToken → List FireBind
wait_binds [] = []
wait_binds (t ∷ ts) = FireBind.wait t ∷ wait_binds ts

abbrev pub pair_binds : Option NetToken → Option NetToken → List FireBind
pair_binds (some a) (some b) = FireBind.pair a b ∷ []
pair_binds _ _ = []

abbrev pub control_wait_binds : List (ThreadId × FrameId) → Option NetToken → List FireBind
control_wait_binds ids none = []
control_wait_binds [] (some w) = []
control_wait_binds ((tid, fid) ∷ ids) (some w) =
    FireBind.control_wait tid fid w ∷ control_wait_binds ids (some w)

abbrev pub chosen_with : List (ThreadId × FrameId) → NetToken → List FireBind
chosen_with [] w = []
chosen_with ((tid, fid) ∷ ids) w = FireBind.control_choose_wait tid fid w ∷ chosen_with ids w

abbrev pub choose_binds : List (ThreadId × FrameId) → List NetToken → List FireBind
choose_binds ids [] = []
choose_binds ids (w ∷ ws) = chosen_with ids w ++ choose_binds ids ws

-- The bindings of a transition in a state, in the order in which they are tried.
unfoldable pub bindings : Binding → NetState → List FireBind
unfolding place_tokens
bindings (Binding.control pid) s = control_binds (control_tokens (place_tokens pid s))
bindings (Binding.wait pid) s = wait_binds (place_tokens pid s)
bindings (Binding.pair a b) s = pair_binds (head? (place_tokens a s)) (head? (place_tokens b s))
bindings (Binding.control_wait c w) s =
    control_wait_binds (control_tokens (place_tokens c s)) (head? (place_tokens w s))
bindings (Binding.control_choose_wait c w) s =
    choose_binds (control_tokens (place_tokens c s)) (place_tokens w s)

abbrev pub label_of : Transition → FireBind → StepLabel
label_of t bind =
    let (tid, fid) = binding_ids bind in
    record { origin = t.origin; thread = some tid; frame = some fid }

abbrev pub steps_of : Transition → FireBind → Option NetState → List (Step NetState)
steps_of t bind none = []
steps_of t bind (some s) = record { label = label_of t bind; state = s } ∷ []

abbrev pub and_then : Transition → FireBind → Fired → Enabled NetState → Enabled NetState
and_then t bind fired rest = record {
  steps = steps_of t bind fired.next ++ rest.steps;
  boundary = fired.boundary ++ rest.boundary;
}

abbrev pub no_steps : Enabled NetState
no_steps = record { steps = []; boundary = [] }

unfoldable pub fire_all : Engine → NetState → Transition → List FireBind → Result (Enabled NetState)
unfolding fire binding_ids
fire_all eng s t [] = ok no_steps
fire_all eng s t (bind ∷ binds) = fire eng s t bind >>= λ fired.
    fire_all eng s t binds >>= λ others. ok (and_then t bind fired others)

abbrev pub join_enabled : Enabled NetState → Enabled NetState → Enabled NetState
join_enabled a b = record { steps = a.steps ++ b.steps; boundary = a.boundary ++ b.boundary }

unfoldable pub fire_transitions : Engine → NetState → List Transition → Result (Enabled NetState)
unfolding fire_all bindings
fire_transitions eng s [] = ok no_steps
fire_transitions eng s (t ∷ ts) = fire_all eng s t (bindings t.binding s) >>= λ here.
    fire_transitions eng s ts >>= λ rest. ok (join_enabled here rest)

unfoldable pub successors : Engine → NetState → Result (Enabled NetState)
unfolding fire_transitions
successors eng s = fire_transitions eng s eng.net.transitions

unfoldable pub is_finished : NetState → Bool
is_finished s = every (λ (tid, t). is_finished_in s.store.finished tid) s.store.threads

abbrev pub data_at : NetState → Option PlaceId → Option Value
data_at s none = none
data_at s (some pid) = read_data pid s

abbrev pub mutex_at : NetState → Option PlaceId → Option MutexToken
mutex_at s none = none
mutex_at s (some pid) = read_mutex pid s

abbrev pub tokens_at : NetState → Option PlaceId → List NetToken
tokens_at s none = []
tokens_at s (some pid) = place_tokens pid s

abbrev pub holds_token : ThreadId → NetToken → Bool
holds_token tid (NetToken.mutex (held h)) = h == tid
holds_token tid _ = false

abbrev pub value_test : (Value → Bool) → Bool → Option Value → Bool
value_test test missing none = missing
value_test test missing (some v) = test v

-- Whether the thread holds the resource, in a program where it exists.
unfoldable pub net_thread_holds : Engine → NetState → ThreadId → ResourceId → Result Bool
unfolding resource place place_tokens read_data
net_thread_holds eng s tid r = do
  res ← resource eng.program r
  ok (elim res.kind [
    | mutex ↦ any (holds_token tid) (tokens_at s (place eng (PlaceKey.mutex r)))
    | semaphore ↦
        value_test (λ v. elim v [ int n ↦ ltb_ℤ n res.permits | _ ↦ false ]) false
          (data_at s (place eng (PlaceKey.semaphore r)))
    | _ ↦ false
  ])

abbrev pub buffer_test : (Items → Bool) → Value → Bool
buffer_test test v = elim v [ array xs ↦ test xs | _ ↦ false ]

abbrev pub no_item : Items → Bool
no_item xs = items_len xs == 0

abbrev pub runs : Option NetFrame → FunctionId → Bool
runs none func = false
runs (some f) func = f.function == func

abbrev pub executes : NetState → FunctionId → List FrameId → Bool
executes s func fids = any (λ fid. runs (get fid s.store.frames) func) fids

abbrev pub holds_every : Engine → NetState → ThreadId → List ResourceId → Result Bool
holds_every eng s tid [] = ok true
holds_every eng s tid (r ∷ rs) = do
  h ← net_thread_holds eng s tid r
  if h then holds_every eng s tid rs else ok false

-- Whether some thread executes the function and holds all the resources.
unfoldable pub any_holds_all :
    Engine → NetState → FunctionId → List ResourceId → Map ThreadId NetThread → Result Bool
unfolding net_thread_holds
any_holds_all eng s func rs [] = ok false
any_holds_all eng s func rs ((tid, t) ∷ m) =
    let rest = any_holds_all eng s func rs m in
    if executes s func t.stack
    then (holds_every eng s tid rs >>= λ h. if h then ok true else rest)
    else rest

unfoldable pub exclusive : Engine → NetState → ResourceId → Result Bool
unfolding resource place read_data
exclusive eng s r = do
  res ← resource eng.program r
  ok (elim res.kind [
    | mutex ↦ true
    | semaphore ↦
        value_test (λ v. elim v [ int n ↦ leb_ℤ (pos 0) n | _ ↦ false ]) true
          (data_at s (place eng (PlaceKey.semaphore r)))
    | _ ↦ false
  ])

unfoldable mutual
  unfolding shared_place place read_data read_mutex value_eq compare_values any_holds_all exclusive

  pub satisfied : Engine → NetState → Predicate → Result Bool
  satisfied eng s truth = ok true
  satisfied eng s falsity = ok false
  satisfied eng s (var_eq r v) = ok (var_is (read_at s (shared_place eng.net r)) v)
  satisfied eng s (var_cmp r op v) =
      ok (var_compares eng.host op (read_at s (shared_place eng.net r)) v)
  satisfied eng s (function_completed f) = ok (leb 1 (get_or (get f s.store.completed_functions) 0))
  satisfied eng s (function_completed_at_least f n) =
      ok (leb n (get_or (get f s.store.completed_functions) 0))
  satisfied eng s (scope_completed f sid) = ok (is_some (get (f, sid) s.store.completed_scopes))
  satisfied eng s (statement_reached f sid) = ok (is_some (get (f, sid) s.store.reached))
  satisfied eng s (mutex_free r) = ok (is_free (mutex_at s (place eng (PlaceKey.mutex r))))
  satisfied eng s (mutex_held r) = ok (is_held (mutex_at s (place eng (PlaceKey.mutex r))))
  satisfied eng s (channel_empty r) =
      ok (value_test (buffer_test no_item) true (data_at s (place eng (PlaceKey.channel r))))
  satisfied eng s (channel_at_least r n) = ok (
      value_test (buffer_test (λ xs. leb n (items_len xs))) false
        (data_at s (place eng (PlaceKey.channel r))))
  satisfied eng s (holds_all f rs) = any_holds_all eng s f rs s.store.threads
  satisfied eng s (mutex_exclusive r) = exclusive eng s r
  satisfied eng s (never_holds_all f rs) = do
    h ← any_holds_all eng s f rs s.store.threads
    ok (not h)
  satisfied eng s (negation p) = do b ← satisfied eng s p; ok (not b)
  satisfied eng s (conjunction ps) = satisfied_all eng s ps
  satisfied eng s (disjunction ps) = satisfied_any eng s ps

  pub satisfied_all : Engine → NetState → Predicates → Result Bool
  satisfied_all eng s no_predicates = ok true
  satisfied_all eng s (predicate p ps) =
      let rest = satisfied_all eng s ps in satisfied eng s p >>= λ b. if b then rest else ok false

  pub satisfied_any : Engine → NetState → Predicates → Result Bool
  satisfied_any eng s no_predicates = ok false
  satisfied_any eng s (predicate p ps) =
      let rest = satisfied_any eng s ps in satisfied eng s p >>= λ b. if b then ok true else rest
