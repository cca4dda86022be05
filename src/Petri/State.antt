-- ===== src/Petri/State.antt =====
-- src/petri/net.rs: the tokens, the store and the marking of a net state.
use conc_ir.Prelude.{
  ℕ, suc, ◌==◌, Bool, true, false, ◌&&◌, Option, none, some, List, [], ◌∷◌, ◌++◌, head?,
  if◌then◌else◌,
}
use conc_ir.Prelude.Int.{ℤ, eqb_ℤ}
use conc_ir.Prelude.Text.{Str}
use conc_ir.Prelude.Map.{Map, get, insert, nat_key, list_key, pair_key}
use conc_ir.Sem.Outcome.{
  FunctionId, ResourceId, ThreadId, FrameId, ScopeId, HandleId, SlotId, SlotRef, Result, ◌>>=◌,
  unwrap,
}
use conc_ir.Sem.Value.{Value, value_eq}
use conc_ir.Sem.Eval.{ValueStore}
use conc_ir.Sem.Program.{SemProgram, SemSlot, SlotClass, param, function}
use conc_ir.Petri.Net.{PlaceId, PlaceKey, place_key, PetriNet}
use conc_ir.Interp.State.{init_locals}

pub data MutexToken : Type 0 where
  free : MutexToken
  held : ThreadId → MutexToken

pub data NetToken : Type 0 where
  control : ThreadId → FrameId → NetToken
  datum : Value → NetToken
  mutex : MutexToken → NetToken
  lock_wait : ThreadId → FrameId → NetToken
  condvar_wait : ThreadId → FrameId → ResourceId → NetToken
  send_wait : ThreadId → FrameId → Value → NetToken
  recv_wait : ThreadId → FrameId → NetToken
  sem_wait : ThreadId → FrameId → ℤ → NetToken
  join_wait : ThreadId → FrameId → NetToken
  scope_wait : ThreadId → FrameId → NetToken

-- The thread and the frame of a token that has them.
unfoldable pub token_ids : NetToken → Option (ThreadId × FrameId)
token_ids (NetToken.control t f) = some (t, f)
token_ids (NetToken.datum v) = none
token_ids (NetToken.mutex m) = none
token_ids (NetToken.lock_wait t f) = some (t, f)
token_ids (NetToken.condvar_wait t f l) = some (t, f)
token_ids (NetToken.send_wait t f v) = some (t, f)
token_ids (NetToken.recv_wait t f) = some (t, f)
token_ids (NetToken.sem_wait t f n) = some (t, f)
token_ids (NetToken.join_wait t f) = some (t, f)
token_ids (NetToken.scope_wait t f) = some (t, f)

abbrev pub mutex_eq : MutexToken → MutexToken → Bool
mutex_eq free free = true
mutex_eq (held a) (held b) = a == b
mutex_eq _ _ = false

-- `PartialEq for NetToken`.
unfoldable pub token_eq : NetToken → NetToken → Bool
unfolding value_eq
token_eq (NetToken.control t f) (NetToken.control u g) = (t == u) && (f == g)
token_eq (NetToken.datum v) (NetToken.datum w) = value_eq v w
token_eq (NetToken.mutex m) (NetToken.mutex n) = mutex_eq m n
token_eq (NetToken.lock_wait t f) (NetToken.lock_wait u g) = (t == u) && (f == g)
token_eq (NetToken.condvar_wait t f l) (NetToken.condvar_wait u g k) =
    (t == u) && ((f == g) && (l == k))
token_eq (NetToken.send_wait t f v) (NetToken.send_wait u g w) =
    (t == u) && ((f == g) && value_eq v w)
token_eq (NetToken.recv_wait t f) (NetToken.recv_wait u g) = (t == u) && (f == g)
token_eq (NetToken.sem_wait t f m) (NetToken.sem_wait u g n) = (t == u) && ((f == g) && eqb_ℤ m n)
token_eq (NetToken.join_wait t f) (NetToken.join_wait u g) = (t == u) && (f == g)
token_eq (NetToken.scope_wait t f) (NetToken.scope_wait u g) = (t == u) && (f == g)
token_eq _ _ = false

pub record NetRetAddr : Type 0 where
  pub pc_next : ℕ
  pub dst : SlotRef

pub record NetFrame : Type 0 where
  pub id : FrameId
  pub function : FunctionId
  pub pc : ℕ
  pub locals : Map SlotId Value
  pub handles : Map Str HandleId
  pub ret : Option NetRetAddr

pub record NetScope : Type 0 where
  pub id : ScopeId
  pub owner : ThreadId
  pub owner_frame : FrameId
  pub owner_sid : ℕ
  pub remaining : Map ThreadId (Unit {0})

pub record NetThread : Type 0 where
  pub entry_function : FunctionId
  pub stack : List FrameId
  pub handle_children : Map HandleId ThreadId
  pub parent_scope : Option ScopeId
  pub blocked_at : Option PlaceKey

pub record NetAlloc : Type 0 where
  pub next_thread : ℕ
  pub next_frame : ℕ
  pub next_scope : ℕ
  pub next_handle : ℕ

pub record NetStore : Type 0 where
  pub frames : Map FrameId NetFrame
  pub threads : Map ThreadId NetThread
  pub scopes : Map ScopeId NetScope
  pub finished : Map ThreadId (Unit {0})
  pub completed_functions : Map FunctionId ℕ
  pub completed_scopes : Map (FunctionId × ℕ) (Unit {0})
  pub reached : Map (FunctionId × ℕ) (Unit {0})
  pub alloc : NetAlloc

abbrev pub Marking : Type 0
Marking = Map PlaceId (List NetToken)

pub record NetState : Type 0 where
  pub marking : Marking
  pub store : NetStore

-- `store.frame(id)`, which panics on an unknown frame.
unfoldable pub frame_of : NetState → FrameId → Result NetFrame
frame_of s id = unwrap (get id s.store.frames)

abbrev pub tokens_or_empty : Option (List NetToken) → List NetToken
tokens_or_empty none = []
tokens_or_empty (some ts) = ts

unfoldable pub place_tokens : PlaceId → NetState → List NetToken
place_tokens pid s = tokens_or_empty (get pid s.marking)

unfoldable pub put : PlaceId → NetToken → NetState → NetState
unfolding place_tokens
put pid t s = record s { marking = insert pid (place_tokens pid s ++ t ∷ []) s.marking }

-- Without the first token that equals this one; `none` where there is none.
unfoldable pub drop_token : NetToken → List NetToken → Option (List NetToken)
unfolding token_eq
drop_token t [] = none
drop_token t (u ∷ ts) =
    let rest = drop_token t ts in
    if token_eq u t then some ts else elim rest [ none ↦ none | some us ↦ some (u ∷ us) ]

abbrev pub with_tokens : PlaceId → NetState → Option (List NetToken) → Option NetState
with_tokens pid s none = none
with_tokens pid s (some ts) = some (record s { marking = insert pid ts s.marking })

-- `none`: no such token, and the state is left alone.
unfoldable pub take_token : PlaceId → NetToken → NetState → Option NetState
unfolding drop_token place_tokens
take_token pid t s = with_tokens pid s (drop_token t (place_tokens pid s))

unfoldable pub set_single : PlaceId → NetToken → NetState → NetState
set_single pid t s = record s { marking = insert pid (t ∷ []) s.marking }

unfoldable pub single : PlaceId → NetState → Option NetToken
unfolding place_tokens
single pid s = head? (place_tokens pid s)

abbrev pub as_data : Option NetToken → Option Value
as_data (some (NetToken.datum v)) = some v
as_data _ = none

abbrev pub as_mutex : Option NetToken → Option MutexToken
as_mutex (some (NetToken.mutex m)) = some m
as_mutex _ = none

unfoldable pub read_data : PlaceId → NetState → Option Value
unfolding single
read_data pid s = as_data (single pid s)

unfoldable pub set_data : PlaceId → Value → NetState → NetState
unfolding set_single
set_data pid v s = set_single pid (NetToken.datum v) s

unfoldable pub read_mutex : PlaceId → NetState → Option MutexToken
unfolding single
read_mutex pid s = as_mutex (single pid s)

unfoldable pub set_mutex : PlaceId → MutexToken → NetState → NetState
unfolding set_single
set_mutex pid m s = set_single pid (NetToken.mutex m) s

abbrev pub or_key : Option PlaceId → Option PlaceId → Option PlaceId
or_key none b = b
or_key (some a) b = some a

-- The place of a shared variable: of a `var`, or of an atomic where there is no `var`.
unfoldable pub shared_place : PetriNet → ResourceId → Option PlaceId
shared_place net r =
    or_key (get (PlaceKey.var r) net.place_of) (get (PlaceKey.atomic r) net.place_of)

abbrev pub read_at : NetState → Option PlaceId → Option Value
read_at s none = none
read_at s (some pid) = as_data (head? (tokens_or_empty (get pid s.marking)))

-- `NetFrameView`.
unfoldable pub net_frame_view : PetriNet → NetFrame → NetState → ValueStore
unfolding shared_place
net_frame_view net f s = record {
  get_slot = λ slot. get slot f.locals;
  get_shared = λ r. read_at s (shared_place net r);
}

unfoldable pub default_locals : SemProgram → FunctionId → Result (Map SlotId Value)
unfolding function init_locals
default_locals p func = function p func >>= λ f. init_locals 0 f.slots []

abbrev pub is_param : SlotClass → Bool
is_param param = true
is_param _ = false

-- The positions of the parameters that carry data.
abbrev pub modeled_params : ℕ → List SemSlot → List SlotId
modeled_params i [] = []
modeled_params i (slot ∷ slots) =
    let rest = modeled_params (suc i) slots in
    if is_param slot.class && slot.modeled then i ∷ rest else rest
