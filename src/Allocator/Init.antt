-- ===== src/Allocator/Init.antt =====
-- runtime/alloc.c: the calls that bracket provider initialization, in any order.
use loke.Prelude.{ℕ, suc, ◌≤◌, ◌≡◌, refl, Bool, arith, if◌then◌else◌}
use loke.Prelude.Outcome.{ok}
use loke.Allocator.{
  Runtime, Handle, OpsTable, InitState, idle, running, done, provider_init_begin, provider_init_end,
}

module _ {S : Type 0} (default_allocator : ℕ) (handles : ℕ → Handle) (tables : ℕ → OpsTable S) where
  -- A sequence of calls of `begin` and `end`, and how many times `begin` told its caller to run the
  -- factories.
  pub data Calls (first : Runtime S) : (runs : ℕ) → (last : Runtime S) → Type 0 where
    start : Calls first 0 first
    begun :
        {runs : ℕ} {rt next : Runtime S} {run : Bool}
        → Calls first runs rt
        → provider_init_begin default_allocator handles tables rt ≡ ok (run, next)
        → Calls first (if run then suc runs else runs) next
    ended :
        {runs : ℕ} {rt : Runtime S}
        → Calls first runs rt
        → Calls first runs (provider_init_end default_allocator handles tables rt)

  -- How many runs a state has behind it at most.
  abbrev most_runs : InitState → ℕ
  most_runs idle = 0
  most_runs running = 1
  most_runs done = 1

  begin-most_runs :
      (rt next : Runtime S) (run : Bool) (runs : ℕ) (s : InitState)
      → rt.init_state ≡ s
      → runs ≤ most_runs s
      → provider_init_begin default_allocator handles tables rt ≡ ok (run, next)
      → (if run then suc runs else runs) ≤ most_runs next.init_state
  unfolding provider_init_begin
  begin-most_runs rt next run runs idle e h b = ground arith
  begin-most_runs rt next run runs running e h b = ground arith
  begin-most_runs rt next run runs done e h b = ground arith

  Calls-most_runs :
      (first last : Runtime S) (runs : ℕ)
      → first.init_state ≡ idle
      → Calls first runs last
      → runs ≤ most_runs last.init_state
  unfolding provider_init_end
  Calls-most_runs first last runs e (start) = omega arith
  Calls-most_runs first last runs e (begun {runs = n} {rt} {next} {run} before b) =
      begin-most_runs rt next run n rt.init_state refl (Calls-most_runs first rt n e before) b
  Calls-most_runs first last runs e (ended {runs = n} {rt} before) =
      at_most rt.init_state (Calls-most_runs first rt n e before)
    where
      at_most : (s : InitState) → n ≤ most_runs s → n ≤ 1
      at_most idle h = omega arith
      at_most running h = h
      at_most done h = h

  -- From the initial state, however the calls of `provider_init_begin` and `provider_init_end`
  -- follow on one another, `begin` tells its caller to run the factories at most once.
  pub Calls-once :
      (first last : Runtime S) (runs : ℕ)
      → first.init_state ≡ idle
      → Calls first runs last
      → runs ≤ 1
  Calls-once first last runs e calls =
      at_most last.init_state (Calls-most_runs first last runs e calls)
    where
      at_most : (s : InitState) → runs ≤ most_runs s → runs ≤ 1
      at_most idle h = omega arith
      at_most running h = h
      at_most done h = h
