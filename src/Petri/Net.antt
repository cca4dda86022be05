-- ===== src/Petri/Net.antt =====
-- src/petri/net.rs: the places, the transitions and the net of a program.
use conc_ir.Prelude.{
  ℕ, ◌==◌, ◌≡◌, refl, ◌∙◌, sym, ap, ◌↔◌, Option, List, [], ◌∷◌, Ordering, if◌then◌else◌,
}
use conc_ir.Prelude.Int.{ℤ}
use conc_ir.Prelude.Text.{Str}
use conc_ir.Prelude.Map.{Key, Map, nat_key, lex, lex_iff}
use conc_ir.Sem.Outcome.{FunctionId, ResourceId, SlotRef, TransitionOrigin}
use conc_ir.Sem.Eval.{LExpr}

abbrev pub PlaceId : Type 0
PlaceId = ℕ

pub data PlaceKey : Type 0 where
  control : FunctionId → ℕ → PlaceKey
  var atomic mutex semaphore channel channel_send channel_recv : ResourceId → PlaceKey
  condvar lock_wait sem_wait : ResourceId → PlaceKey
  join_wait scope_wait : FunctionId → ℕ → PlaceKey

-- The derived order compares the constructors first, then their fields.
abbrev pub rank : PlaceKey → List ℕ
rank (control f sid) = 0 ∷ f ∷ sid ∷ []
rank (var r) = 1 ∷ r ∷ []
rank (atomic r) = 2 ∷ r ∷ []
rank (mutex r) = 3 ∷ r ∷ []
rank (semaphore r) = 4 ∷ r ∷ []
rank (channel r) = 5 ∷ r ∷ []
rank (channel_send r) = 6 ∷ r ∷ []
rank (channel_recv r) = 7 ∷ r ∷ []
rank (condvar r) = 8 ∷ r ∷ []
rank (lock_wait r) = 9 ∷ r ∷ []
rank (sem_wait r) = 10 ∷ r ∷ []
rank (join_wait f sid) = 11 ∷ f ∷ sid ∷ []
rank (scope_wait f sid) = 12 ∷ f ∷ sid ∷ []

-- A key from its rank, by which two keys of one rank are equal.
of_resource : ℕ → ResourceId → PlaceKey
of_resource n r =
    if n == 1
    then var r
    else if n == 2
    then atomic r
    else if n == 3
    then mutex r
    else if n == 4
    then semaphore r
    else if n == 5
    then channel r
    else if n == 6
    then channel_send r
    else if n == 7
    then channel_recv r
    else if n == 8
    then condvar r
    else if n == 9
    then lock_wait r
    else sem_wait r

of_rank : List ℕ → PlaceKey
of_rank (n ∷ f ∷ sid ∷ []) =
    if n == 0 then control f sid else if n == 11 then join_wait f sid else scope_wait f sid
of_rank (n ∷ r ∷ []) = of_resource n r
of_rank _ = var 0

of_rank-rank : (k : PlaceKey) → of_rank (rank k) ≡ k
unfolding of_rank of_resource
of_rank-rank (control f sid) = refl
of_rank-rank (var r) = refl
of_rank-rank (atomic r) = refl
of_rank-rank (mutex r) = refl
of_rank-rank (semaphore r) = refl
of_rank-rank (channel r) = refl
of_rank-rank (channel_send r) = refl
of_rank-rank (channel_recv r) = refl
of_rank-rank (condvar r) = refl
of_rank-rank (lock_wait r) = refl
of_rank-rank (sem_wait r) = refl
of_rank-rank (join_wait f sid) = refl
of_rank-rank (scope_wait f sid) = refl

abbrev pub place_cmp : PlaceKey → PlaceKey → Ordering
place_cmp a b = lex (rank a) (rank b)

pub place_cmp_iff : (a b : PlaceKey) → (place_cmp a b ≡ Ordering.eq) ↔ (a ≡ b)
place_cmp_iff a b = (
  λ h. sym (of_rank-rank a) ∙ ap of_rank ((lex_iff (rank a) (rank b)).0 h) ∙ of_rank-rank b,
  λ e. (lex_iff (rank a) (rank b)).1 (ap rank e),
)

instance abbrev pub place_key : Key PlaceKey
place_key = record { cmp = place_cmp; cmp_iff = place_cmp_iff }

pub record Place : Type 0 where
  pub id : PlaceId
  pub key : PlaceKey

-- How a transition is bound to tokens.
pub data Binding : Type 0 where
  control wait : PlaceId → Binding
  pair control_wait control_choose_wait : PlaceId → PlaceId → Binding

pub data NetOp : Type 0 where
  nop : NetOp
  assign_local : SlotRef → LExpr → NetOp
  read_var : ResourceId → Option SlotRef → NetOp
  write_var : ResourceId → LExpr → NetOp
  atomic_load : ResourceId → SlotRef → NetOp
  atomic_store : ResourceId → LExpr → NetOp
  atomic_cas : ResourceId → LExpr → LExpr → SlotRef → NetOp
  mutex_lock_grant mutex_lock_block mutex_unlock lock_wait_acquire : ResourceId → NetOp
  condvar_wait : ResourceId → ResourceId → NetOp
  condvar_notify_hit condvar_notify_miss condvar_notify_all : ResourceId → NetOp
  sem_acquire sem_acquire_block sem_release : ResourceId → ℤ → NetOp
  sem_grant : ResourceId → NetOp
  send_register recv_register send_pair recv_pair rendezvous : ResourceId → NetOp
  send_buf send_buf_block : ResourceId → LExpr → NetOp
  recv_buf : ResourceId → SlotRef → NetOp
  recv_buf_block buffer_deliver buffer_recv_wait : ResourceId → NetOp
  goto : ℕ → NetOp
  branch_then branch_else : LExpr → ℕ → NetOp
  switch_case : LExpr → Str → ℕ → NetOp
  switch_default : LExpr → List Str → ℕ → NetOp
  call : FunctionId → List LExpr → Option SlotRef → NetOp
  spawn : FunctionId → Str → NetOp
  scope : List FunctionId → NetOp
  join_ready join_block : Str → NetOp
  return_inner return_final : Option LExpr → NetOp

pub record Transition : Type 0 where
  pub id : ℕ
  pub op : NetOp
  pub binding : Binding
  pub next : Option PlaceId
  pub outputs : List PlaceId
  pub origin : TransitionOrigin

pub record PetriNet : Type 0 where
  pub places : List Place
  pub place_of : Map PlaceKey PlaceId
  pub transitions : List Transition
  pub entry : FunctionId
