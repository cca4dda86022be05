-- ===== src/Petri/Safety/Exclusion.antt =====
-- src/petri: what the engine guarantees of mutexes, semaphores and channels.
use conc_ir.Prelude.{◌≤◌, ◌≡◌, ◌∙◌, sym, ap, subst, true, some, In}
use conc_ir.Prelude.Int.{ℤ, pos, leb_ℤ}
use conc_ir.Sem.Outcome.{ResourceId, ThreadId, AnalysisBounds, ok}
use conc_ir.Sem.Value.{int, as_int, array, Items, items_len}
use conc_ir.Sem.Eval.{Host}
use conc_ir.Sem.Program.{SemProgram, SemResource, resource}
use conc_ir.Sem.Monitor.{MonitorConfig}
use conc_ir.Sem.System.{Step, Enabled}
use conc_ir.Interp.Ownership.Relation.{Post}
use conc_ir.Petri.Net.{PlaceId, PlaceKey, PetriNet}
use conc_ir.Petri.State.{NetState, place_tokens, single, read_data, read_mutex}
use conc_ir.Petri.Build.{build}
use conc_ir.Petri.Engine.{Engine, place}
use conc_ir.Petri.Sync.{count_of, or_zero}
use conc_ir.Petri.Channels.{as_buffer, buffered}
use conc_ir.Petri.System.{new_engine, successors}
use conc_ir.Petri.Safety.Relation.{MutexChange, FitsCapacity, Change}
use conc_ir.Petri.Safety.Reach.{built_of, program_of, step-Steps}
use conc_ir.Petri.Safety.Reached.{NetRuns, PermitsNonNegative, Holds, runs-Sound}
use conc_ir.Petri.WellFormed.Program.{IsWellFormedNet, build-IsWellFormed}

-- In the net of a program the identity of a place is its position, the places and their keys
-- correspond one to one, every place that a transition names exists, and no place from which a
-- binding takes tokens, or to which a control token moves on, is that of a mutex, semaphore or channel.
pub build_well_formed : (p : SemProgram) (net : PetriNet) → build p ≡ ok net → IsWellFormedNet net
unfolding Post
build_well_formed p net e = subst (Post IsWellFormedNet) e (build-IsWellFormed p)

module _ (p : SemProgram) (bounds : AnalysisBounds) (monitor : MonitorConfig) (host : Host)
    (eng : Engine) (built : new_engine p bounds monitor host ≡ ok eng) where
  -- A step of the net leaves each mutex alone, or gives it to the thread of the step's label where
  -- it was free, or frees it where that thread held it.
  pub mutex_moves :
      (s : NetState) (en : Enabled NetState) (st : Step NetState)
      → successors eng s ≡ ok en
      → In st en.steps
      → (tid : ThreadId) × (st.label.thread ≡ some tid)
        × ((r : ResourceId) (pid : PlaceId)
            → place eng (PlaceKey.mutex r) ≡ some pid
            → MutexChange tid (read_mutex pid s) (read_mutex pid st.state))
  unfolding Change read_mutex single
  mutex_moves s en st e i =
      let (tid, named, x) = step-Steps eng (built_of p bounds monitor host eng built) s en st e i in
      (tid, named, λ r pid f. x.change (PlaceKey.mutex r) pid f)

  -- Where no semaphore starts with negative permits, the count at a semaphore's place is never
  -- negative in a state that the net reaches.
  pub net_permits_nonnegative :
      PermitsNonNegative p
      → (s : NetState) (r : ResourceId) (pid : PlaceId) (n : ℤ) → NetRuns eng s
      → place eng (PlaceKey.semaphore r) ≡ some pid
      → read_data pid s ≡ some (int n)
      → leb_ℤ (pos 0) n ≡ true
  unfolding Holds read_data single as_int
  net_permits_nonnegative nonneg s r pid n runs f e =
      let x = runs-Sound eng (built_of p bounds monitor host eng built) (start nonneg) s runs in
      subst (λ v. leb_ℤ (pos 0) (or_zero (count_of v)) ≡ true) e
        (x.holds (PlaceKey.semaphore r) pid f)
    where
      start : PermitsNonNegative p → PermitsNonNegative eng.program
      start h = subst PermitsNonNegative (program_of p bounds monitor host eng built) h

  -- Where no semaphore starts with negative permits, the buffer at a channel's place never holds more
  -- messages than the capacity that the program declares, in a state that the net reaches.
  pub net_buffer_bounded :
      PermitsNonNegative p
      → (s : NetState) (c : ResourceId) (res : SemResource) (pid : PlaceId) (xs : Items)
      → NetRuns eng s
      → place eng (PlaceKey.channel c) ≡ some pid
      → resource p c ≡ ok res
      → read_data pid s ≡ some (array xs)
      → items_len xs ≤ res.capacity
  unfolding Holds read_data single
  net_buffer_bounded nonneg s c res pid xs runs f q e =
      let same_program = program_of p bounds monitor host eng built in
      let x =
        runs-Sound eng (built_of p bounds monitor host eng built)
          (subst PermitsNonNegative same_program nonneg) s runs in
      subst (λ v. buffered (as_buffer v) ≤ res.capacity) e
        (fits_of (ap (λ g. resource g c) (sym same_program) ∙ q)
          (x.holds (PlaceKey.channel c) pid f))
    where
      fits_of :
          resource eng.program c ≡ ok res
          → Holds eng (PlaceKey.channel c) (place_tokens pid s)
          → buffered (as_buffer (read_data pid s)) ≤ res.capacity
      fits_of r h = subst (λ o. FitsCapacity o (place_tokens pid s)) r h
