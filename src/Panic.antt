-- ===== src/Panic.antt =====
-- runtime/panic.c: the frames of a thread, and what a panic runs before it aborts.
-- A frame is identified by its address, 0 for NULL. The compiler's cleanup code is a parameter: it
-- is given a context and the thread and may panic itself. A report is not modelled.
pub mod Unwind
use loke.Prelude.{ℕ, Bool, true, false, Option, none, some, List, [], ◌∷◌, ◌==◌, if◌then◌else◌}
use loke.Prelude.Outcome.{Outcome, ok, abort, ◌>>=◌}

-- `loke_rt_frame_v1`; `previous` is the rest of the thread's list. `cleanup` `none` is NULL.
pub record Frame : Type 0 where
  pub at : ℕ
  pub cleanup : Option ℕ
  pub context : ℕ

-- The thread-local variables, newest frame first, and what the program's own code works on.
pub record Thread (W : Type 0) : Type 0 where
  pub frames : List Frame
  pub panicking : Bool
  pub attached : Bool
  pub world : W

module _ {W : Type 0} where
  unfoldable pub thread_attach : Thread W → Thread W
  thread_attach t = record t { frames = []; panicking = false; attached = true }

  unfoldable pub frame_push : (at : ℕ) → Option ℕ → (context : ℕ) → Thread W → Thread W
  frame_push at cleanup context t = record t {
    frames = record { at = at; cleanup = cleanup; context = context } ∷ t.frames;
  }

  -- The frame at `at` is removed if it is the newest.
  unfoldable pub frame_pop : (at : ℕ) → Thread W → Thread W
  frame_pop at t = elim t.frames [
    | [] ↦ t
    | f ∷ previous ↦ if f.at == at then record t { frames = previous } else t
  ]

  unfoldable pub panic_begin : Thread W → Outcome (Thread W)
  panic_begin t = if t.panicking then abort else ok (record t { panicking = true })

  -- The code behind a cleanup address, on its context and the thread.
  module _ (code : (cleanup context : ℕ) → Thread W → Outcome (Thread W)) where
    -- `loke_rt_v1_thread_detach`, with the program's thread-local cleanup.
    unfoldable pub thread_detach : (Thread W → Outcome (Thread W)) → Thread W → Outcome (Thread W)
    thread_detach tls_cleanup t =
        if t.attached
        then tls_cleanup (record t { frames = []; attached = false })
        else ok (record t { frames = [] })

    -- The loop of `panic_end`: it follows the frames that were there when it started.
    unfoldable pub unwind : List Frame → Thread W → Outcome (Thread W)
    unwind [] t = ok t
    unwind (f ∷ previous) t = elim f.cleanup [
      | none ↦ unwind previous t
      | some c ↦ code c f.context t >>= unwind previous
    ]

    unfoldable pub panic_end : Thread W → Outcome (Thread W)
    panic_end t = unwind t.frames t >>= λ u. abort

    unfoldable pub thread_panic : Thread W → Outcome (Thread W)
    thread_panic t = panic_begin t >>= panic_end
