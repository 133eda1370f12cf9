-- ===== src/Panic/Unwind.antt =====
-- runtime/panic.c: the frame discipline of calls, and the order of a panic's cleanups.
use loke.Prelude.{
  ℕ, ◌≡◌, ◌≢◌, refl, ◌∙◌, true, false, Option, List, [], ◌∷◌, ◌++◌, arith, ◌==◌, Option-cases, inl,
  inr,
}
use loke.Prelude.Outcome.{Outcome, ok, panic, abort, exited, overrun, ◌>>=◌}
use loke.Panic.{Frame, Thread, frame_push, frame_pop, panic_begin, unwind, panic_end, thread_panic}

-- The address of a frame that is not the newest one of the thread.
abbrev pub NotNewest : ℕ → List Frame → Type 0
NotNewest at [] = Unit {0}
NotNewest at (f ∷ previous) = f.at ≢ at

module _ {W : Type 0} where
  -- What a thread may do and come back from: work that leaves its frames alone, two such things one
  -- after the other, the call of a procedure that registers a frame, and the call of one that has a
  -- frame and does not register it.
  pub data Calls : (before after : Thread W) → Type 0 where
    work : {t : Thread W} → (world : W) → Calls t (record t { world = world })
    next : {t u v : Thread W} → Calls t u → Calls u v → Calls t v
    registered :
        {t u : Thread W} (at context : ℕ) (cleanup : Option ℕ)
        → Calls (frame_push at cleanup context t) u
        → Calls t (frame_pop at u)
    unregistered :
        {t u : Thread W} (at : ℕ) → NotNewest at t.frames → Calls t u → Calls t (frame_pop at u)

  frame_pop-newest :
      (u : Thread W) (f : Frame) (fs : List Frame)
      → u.frames ≡ f ∷ fs
      → (frame_pop f.at u).frames ≡ fs
  unfolding frame_pop
  frame_pop-newest u f fs e = let same : (f.at == f.at) ≡ true = ground arith in rw (e, same) refl

  frame_pop-other :
      (u : Thread W) (at : ℕ) (fs : List Frame)
      → u.frames ≡ fs
      → NotNewest at fs
      → (frame_pop at u).frames ≡ fs
  unfolding frame_pop
  frame_pop-other u at [] e h = rw e refl
  frame_pop-other u at (f ∷ fs) e h =
      let other : (f.at == at) ≡ false = ground arith in rw (e, other) refl

  -- When a thread comes back from calls, its frames are those that it had: a procedure that never
  -- registered its frame leaves its caller's alone.
  pub Calls-frames : (t u : Thread W) → Calls t u → u.frames ≡ t.frames
  unfolding frame_push
  Calls-frames t _ (work world) = refl
  Calls-frames t v (next {u} a b) = Calls-frames u v b ∙ Calls-frames t u a
  Calls-frames t _ (registered {u} at context cleanup body) =
      frame_pop-newest u (record { at = at; cleanup = cleanup; context = context }) t.frames
        (Calls-frames (frame_push at cleanup context t) u body)
  Calls-frames t _ (unregistered {u} at h body) =
      frame_pop-other u at t.frames (Calls-frames t u body) h

  module _ (code : (cleanup context : ℕ) → Thread W → Outcome (Thread W)) where
    -- The cleanups of a list of frames are those of its newer part, and then, if they all return, those
    -- of its older part on what they left.
    pub unwind-append :
        (newer older : List Frame) (t : Thread W)
        → unwind code (newer ++ older) t ≡ (unwind code newer t >>= unwind code older)
    unfolding unwind
    unwind-append [] older t = refl
    unwind-append (f ∷ newer) older t = elim (Option-cases f.cleanup) [
      | inl e ↦ rw e (unwind-append newer older t)
      | inr (c, e) ↦ rw e (run (code c f.context t) (λ u. unwind-append newer older u))
    ]
      where
        run :
            (o : Outcome (Thread W))
            → ((u : Thread W)
                → unwind code (newer ++ older) u ≡ (unwind code newer u >>= unwind code older))
            → (o >>= unwind code (newer ++ older))
              ≡ ((o >>= unwind code newer) >>= unwind code older)
        run (ok u) h = h u
        run panic h = refl
        run abort h = refl
        run (exited n) h = refl
        run overrun h = refl

    -- `thread_panic` does not return to its caller, whatever the cleanups do.
    pub thread_panic-ends : (t u : Thread W) → thread_panic code t ≢ ok u
    unfolding thread_panic panic_end
    thread_panic-ends t u e = begun (panic_begin t) e
      where
        ended : (o : Outcome (Thread W)) → (o >>= λ v. abort) ≢ ok u
        ended (ok v) e = cc
        ended panic e = cc
        ended abort e = cc
        ended (exited n) e = cc
        ended overrun e = cc

        begun : (o : Outcome (Thread W)) → (o >>= panic_end code) ≢ ok u
        begun (ok v) e = ended (unwind code v.frames v) e
        begun panic e = cc
        begun abort e = cc
        begun (exited n) e = cc
        begun overrun e = cc
