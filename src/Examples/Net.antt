-- ===== src/Examples/Net.antt =====
-- The net of src/petri of a program whose entry takes a mutex and sends a message.
use conc_ir.Prelude.{zero, suc, arith, ◌≤◌, ◌≡◌, refl, true, some, [], In, inl}
use conc_ir.Prelude.Int.{pos, leb_ℤ}
use conc_ir.Prelude.Map.{get, insert, nat_key, pair_key}
use conc_ir.Sem.Outcome.{ThreadId, ResourceId, ok, default_bounds}
use conc_ir.Sem.Value.{int, array, item, no_items}
use conc_ir.Sem.Program.{ResKind, resource}
use conc_ir.Sem.Monitor.{MonitorConfig}
use conc_ir.Sem.System.{Step, Enabled}
use conc_ir.Petri.Net.{PlaceId, PlaceKey, PetriNet}
use conc_ir.Petri.State.{NetState, read_data, read_mutex}
use conc_ir.Petri.Build.{build}
use conc_ir.Petri.Engine.{Engine, place}
use conc_ir.Petri.System.{new_engine, initial, successors}
use conc_ir.Petri.Safety.Relation.{MutexChange}
use conc_ir.Petri.Safety.Reached.{NetRuns, begin, move, PermitsNonNegative}
use conc_ir.Petri.Safety.Exclusion.{
  build_well_formed, mutex_moves, net_permits_nonnegative, net_buffer_bounded,
}
use conc_ir.Petri.WellFormed.Program.{IsWellFormedNet}
use conc_ir.Examples.Machine.{the_program, the_host, a_resource}

built_net : (net : PetriNet) × (build the_program ≡ ok net)
unfolding build insert get
built_net = (_, refl)

build_well_formed_example : IsWellFormedNet built_net.0
build_well_formed_example = build_well_formed the_program built_net.0 built_net.1

abbrev no_counts : MonitorConfig
no_counts = record { default_max = 0; saturate = [] }

the_engine : (eng : Engine) × (new_engine the_program default_bounds no_counts the_host ≡ ok eng)
unfolding new_engine insert get
the_engine = (_, refl)

starts : (s : NetState) × (initial the_engine.0 ≡ ok s)
unfolding initial the_engine insert get
starts = (_, refl)

-- The steps of the first state, with the first of them, which takes the mutex.
locks :
    (en : Enabled NetState) × (successors the_engine.0 starts.0 ≡ ok en)
    × (st : Step NetState) × In st en.steps
unfolding successors the_engine starts insert get
locks = (_, refl, _, inl refl)

mutex_moves_example :
    (tid : ThreadId) × (locks.2.label.thread ≡ some tid)
    × ((r : ResourceId) (pid : PlaceId)
        → place the_engine.0 (PlaceKey.mutex r) ≡ some pid
        → MutexChange tid (read_mutex pid starts.0) (read_mutex pid locks.2.state))
mutex_moves_example =
    mutex_moves the_program default_bounds no_counts the_host the_engine.0 the_engine.1 starts.0
      locks.0 locks.2 locks.1 locks.3

-- The second step sends the message into the buffer.
sends :
    (en : Enabled NetState) × (successors the_engine.0 locks.2.state ≡ ok en)
    × (st : Step NetState) × In st en.steps
unfolding successors the_engine starts locks insert get
sends = (_, refl, _, inl refl)

net_run : NetRuns the_engine.0 sends.2.state
net_run =
    move locks.2.state sends.0 sends.2
      (move starts.0 locks.0 locks.2 (begin starts.0 starts.1) locks.1 locks.3) sends.1 sends.3

permits_given : PermitsNonNegative the_program
unfolding resource
permits_given zero res e = ground arith
permits_given (suc zero) res e = ground arith
permits_given (suc (suc zero)) res e = ground arith
permits_given (suc (suc (suc r))) res e = cc

channel_place : (pid : PlaceId) × (place the_engine.0 (PlaceKey.channel 1) ≡ some pid)
unfolding place the_engine get
channel_place = (_, refl)

semaphore_place : (pid : PlaceId) × (place the_engine.0 (PlaceKey.semaphore 2) ≡ some pid)
unfolding place the_engine get
semaphore_place = (_, refl)

permits_left : read_data semaphore_place.0 sends.2.state ≡ some (int (pos 2))
unfolding read_data semaphore_place sends locks starts the_engine place get insert
permits_left = refl

declared : resource the_program 1 ≡ ok (a_resource 1 ResKind.channel)
unfolding resource
declared = refl

message_there : read_data channel_place.0 sends.2.state ≡ some (array (item (int (pos 7)) no_items))
unfolding read_data channel_place sends locks starts the_engine place get insert
message_there = refl

net_permits_nonnegative_example : leb_ℤ (pos 0) (pos 2) ≡ true
net_permits_nonnegative_example =
    net_permits_nonnegative the_program default_bounds no_counts the_host the_engine.0 the_engine.1
      permits_given sends.2.state 2 semaphore_place.0 (pos 2) net_run semaphore_place.1 permits_left

net_buffer_bounded_example : 1 ≤ 1
net_buffer_bounded_example =
    net_buffer_bounded the_program default_bounds no_counts the_host the_engine.0 the_engine.1
      permits_given sends.2.state 1 (a_resource 1 ResKind.channel) channel_place.0
      (item (int (pos 7)) no_items) net_run channel_place.1 declared message_there
