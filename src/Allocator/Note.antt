-- ===== src/Allocator/Note.antt =====
-- runtime/alloc.c: what the note of a refused request holds after any sequence of operations.
use loke.Prelude.{
  ℕ, zero, suc, ◌≡◌, ◌≢◌, refl, sym, ap, ◌∙◌, ◌⊎◌, inl, inr, false, ◌||◌, Option, none, some, List,
  [], ◌∷◌, arith, ◌==◌, if◌then◌else◌, Bool-cases,
}
use mathlib.Core.Path.{subst}
use loke.Container.Checked.{sane_align}
use loke.Prelude.Outcome.{Outcome, ok, panic, abort, exited, overrun, ◌>>=◌, bind-ok, ok_injective}
use loke.Allocator.{
  Runtime, Handle, OpsTable, zeroed, refusal_unsized, check_record, resolve, publish_allocator,
  alloc, alloc_zeroed, resize, free, reset, note_request, take_refusal, restore_refusal,
}

-- What happened, as the caller of the operations sees it.
pub data Event : Type 0 where
  -- `alloc` or `alloc_zeroed` of a size, and the answer
  requested : (size : ℕ) → (answer : Option ℕ) → Event
  resized : (new_size : ℕ) → (answer : Option ℕ) → Event
  restored : (size : ℕ) → Event
  taken : Event
  -- `free`, `reset` or the choice of another allocator
  other : Event

-- The size that an error taken now has to carry: that of the last request, if it was refused and not
-- yet taken. The newest event comes first.
abbrev pub refused_last : List Event → ℕ
refused_last [] = refusal_unsized
refused_last (requested zero answer ∷ events) = refused_last events
refused_last (requested (suc n) none ∷ events) = suc n
refused_last (requested (suc n) (some at) ∷ events) = refusal_unsized
refused_last (resized n none ∷ events) = n
refused_last (resized n (some at) ∷ events) = refusal_unsized
refused_last (restored n ∷ events) = if n == 0 || n == refusal_unsized then refusal_unsized else n
refused_last (taken ∷ events) = refusal_unsized
refused_last (other ∷ events) = refused_last events

module _ {S : Type 0} (default_allocator : ℕ) (handles : ℕ → Handle) (tables : ℕ → OpsTable S)
    (first : Runtime S) where
  -- The operations on one thread from `first` on, each with its answer.
  pub data Log : List Event → Runtime S → Type 0 where
    fresh : Log [] first
    after_alloc :
        {events : List Event} {rt next : Runtime S} {size : ℕ} {answer : Option ℕ}
        → Log events rt
        → (handle align : ℕ)
        → alloc default_allocator handles tables handle size align rt ≡ ok (answer, next)
        → Log (requested size answer ∷ events) next
    after_alloc_zeroed :
        {events : List Event} {rt next : Runtime S} {size : ℕ} {answer : Option ℕ}
        → Log events rt
        → (handle align : ℕ)
        → alloc_zeroed default_allocator handles tables handle size align rt ≡ ok (answer, next)
        → Log (requested size answer ∷ events) next
    after_resize :
        {events : List Event} {rt next : Runtime S} {new_size : ℕ} {answer : Option ℕ}
        → Log events rt
        → (handle ptr old_size align : ℕ)
        → resize default_allocator handles tables handle ptr old_size new_size align rt
          ≡ ok (answer, next)
        → Log (resized new_size answer ∷ events) next
    after_free :
        {events : List Event} {rt next : Runtime S}
        → Log events rt
        → (handle ptr size align : ℕ)
        → free default_allocator handles tables handle ptr size align rt ≡ ok next
        → Log (other ∷ events) next
    after_reset :
        {events : List Event} {rt next : Runtime S}
        → Log events rt
        → (handle : ℕ) → reset default_allocator handles tables handle rt ≡ ok next
        → Log (other ∷ events) next
    after_publish :
        {events : List Event} {rt next : Runtime S}
        → Log events rt
        → (handle : ℕ) → publish_allocator default_allocator handles tables handle rt ≡ ok next
        → Log (other ∷ events) next
    after_restore :
        {events : List Event} {rt next : Runtime S} {size : ℕ}
        → Log events rt
        → (handle : ℕ) → restore_refusal default_allocator handles tables handle size rt ≡ ok next
        → Log (restored size ∷ events) next
    after_take :
        {events : List Event} {rt : Runtime S}
        → Log events rt
        → Log (taken ∷ events) (take_refusal default_allocator handles tables rt).1

  -- An allocator is selected, and the note holds what the events say.
  record Noted (events : List Event) (rt : Runtime S) : Type 0 where
    chosen : rt.selected ≢ 0
    note : (take_refusal default_allocator handles tables rt).0 ≡ refused_last events

  -- A handle resolves to one that is not NULL, or the call aborts.
  resolve-cases :
      (rt : Runtime S) (handle : ℕ)
      → rt.selected ≢ 0
      → (resolve default_allocator handles tables rt handle ≡ abort)
        ⊎ ((a : ℕ) × (resolve default_allocator handles tables rt handle ≡ ok a) × (a ≢ 0))
  unfolding resolve
  resolve-cases rt handle chosen = elim (Bool-cases (handle == 0)) [
    | inl z ↦ rw (resolve, z) (go rt.selected chosen)
    | inr z ↦ rw (resolve, z) (go handle (ground arith))
  ]
    where
      go :
          (b : ℕ)
          → b ≢ 0
          → ((if check_record default_allocator handles tables b then ok b else abort) ≡ abort)
            ⊎ ((a : ℕ) × ((if check_record default_allocator handles tables b then ok b else abort)
                  ≡ ok a)
                × (a ≢ 0))
      go b nonzero = elim (Bool-cases (check_record default_allocator handles tables b)) [
        | inl c ↦ inr (b, rw c refl, nonzero)
        | inr c ↦ inl (rw c refl)
      ]

  note_request-noted :
      (a size : ℕ) (result : Option ℕ) (rt : Runtime S)
      → a ≢ 0
      → (take_refusal default_allocator handles tables
          (note_request default_allocator handles tables a size result rt).1).0
        ≡ (elim result [ none ↦ size | some at ↦ refusal_unsized ])
  unfolding take_refusal note_request
  note_request-noted a size none rt h = let e : (a == 0) ≡ false = ground arith in rw e refl
  note_request-noted a size (some at) rt h = refl

  -- A runtime with the same note and selection.
  Noted-same :
      {events : List Event} (rt next : Runtime S)
      → Noted events rt
      → next.selected ≡ rt.selected
      → next.refused_by ≡ rt.refused_by
      → next.refused_size ≡ rt.refused_size
      → Noted events next
  unfolding take_refusal
  Noted-same rt next n s b z = record { chosen = rw s n.chosen; note = rw (b, z) n.note }

  -- A request that reached its provider.
  request-Noted :
      {events : List Event} (rt next : Runtime S) (a size : ℕ) (result answer : Option ℕ)
      → rt.selected ≢ 0
      → a ≢ 0
      → note_request default_allocator handles tables a size result rt ≡ (answer, next)
      → refused_last events ≡ (elim answer [ none ↦ size | some at ↦ refusal_unsized ])
      → Noted events next
  unfolding note_request
  request-Noted {events} rt next a size result answer chosen nonzero e said =
      let same : (note_request default_allocator handles tables a size result rt).1 ≡ next =
        ap (λ (r : Option ℕ × Runtime S). r.1) e in
      let answered : result ≡ answer = ap (λ (r : Option ℕ × Runtime S). r.0) e in
      subst (λ (x : Runtime S). Noted events x) same
        (record {
          chosen = chosen;
          note =
              note_request-noted a size result rt nonzero
              ∙ ap (λ (o : Option ℕ). elim o [ none ↦ size | some at ↦ refusal_unsized ]) answered
              ∙ sym said;
        })

  requested-sized :
      (events : List Event) (size : ℕ) (answer : Option ℕ)
      → refused_last (requested (suc size) answer ∷ events)
        ≡ (elim answer [ none ↦ suc size | some at ↦ refusal_unsized ])
  requested-sized events size none = refl
  requested-sized events size (some at) = refl

  resized-sized :
      (events : List Event) (size : ℕ) (answer : Option ℕ)
      → refused_last (resized size answer ∷ events)
        ≡ (elim answer [ none ↦ size | some at ↦ refusal_unsized ])
  resized-sized events size none = refl
  resized-sized events size (some at) = refl

  alloc-Noted :
      {events : List Event} (rt next : Runtime S) (handle size align : ℕ) (answer : Option ℕ)
      → Noted events rt
      → alloc default_allocator handles tables handle size align rt ≡ ok (answer, next)
      → Noted (requested size answer ∷ events) next
  unfolding alloc
  alloc-Noted {events} rt next handle size align answer n e =
      elim (resolve-cases rt handle n.chosen) [
        | inl bad ↦ absurd (let no : abort ≡ ok (answer, next) = rw (alloc, bad) at e in cc)
        | inr (a, found, nonzero) ↦ go a nonzero size (rw (alloc, found) at e)
      ]
    where
      go :
          (a : ℕ)
          → a ≢ 0
          → (size : ℕ)
          → (let called = (tables a).provider.alloc rt.state size align in
              (if size == 0
                then ok (some (sane_align align), rt)
                else ok (
                    note_request default_allocator handles tables a size called.0
                      (record rt { state = called.1 })))
              ≡ ok (answer, next))
          → Noted (requested size answer ∷ events) next
      go a nonzero zero f =
          let same : rt ≡ next = ap (λ (r : Option ℕ × Runtime S). r.1) (ok_injective f) in
          subst (λ (x : Runtime S). Noted (requested zero answer ∷ events) x) same
            (record { chosen = n.chosen; note = n.note })
      go a nonzero (suc k) f =
          let called = (tables a).provider.alloc rt.state (suc k) align in
          let some_ : (suc k == 0) ≡ false = ground arith in
          request-Noted (record rt { state = called.1 }) next a (suc k) called.0 answer n.chosen
            nonzero (ok_injective (rw some_ at f)) (requested-sized events k answer)

  resize-Noted :
      {events : List Event} (rt next : Runtime S) (handle ptr old_size new_size align : ℕ)
      (answer : Option ℕ)
      → Noted events rt
      → resize default_allocator handles tables handle ptr old_size new_size align rt
        ≡ ok (answer, next)
      → Noted (resized new_size answer ∷ events) next
  unfolding resize
  resize-Noted {events} rt next handle ptr old_size new_size align answer n e =
      elim (resolve-cases rt handle n.chosen) [
        | inl bad ↦ absurd (let no : abort ≡ ok (answer, next) = rw (resize, bad) at e in cc)
        | inr (a, found, nonzero) ↦
            let called = (tables a).provider.resize rt.state ptr old_size new_size align in
            request-Noted (record rt { state = called.1 }) next a new_size called.0 answer n.chosen
              nonzero (ok_injective (rw (resize, found) at e))
              (resized-sized events new_size answer)
      ]

  -- What `alloc_zeroed` does with what `alloc` answered.
  abbrev cleared : (size : ℕ) → Option ℕ × Runtime S → Option ℕ × Runtime S
  cleared size (none, rt) = (none, rt)
  cleared size (some at, rt) =
      (some at, record rt { bytes = zeroed default_allocator handles tables at size rt.bytes })

  alloc_zeroed-cleared :
      (rt : Runtime S) (handle size align : ℕ)
      → alloc_zeroed default_allocator handles tables handle size align rt
        ≡ (alloc default_allocator handles tables handle size align rt >>= λ r. ok (cleared size r))
  unfolding alloc_zeroed
  alloc_zeroed-cleared rt handle size align =
      go (alloc default_allocator handles tables handle size align rt)
    where
      one :
          (r : Option ℕ × Runtime S)
          → (elim r.0 [
            | none ↦ r
            | some p ↦ (
              some p,
              record (r.1) { bytes = zeroed default_allocator handles tables p size r.1.bytes },
            )
          ])
            ≡ cleared size r
      one (none, after) = refl
      one (some at, after) = refl

      go :
          (m : Outcome (Option ℕ × Runtime S))
          → (m >>= λ r. ok (elim r.0 [
            | none ↦ r
            | some p ↦ (
              some p,
              record (r.1) { bytes = zeroed default_allocator handles tables p size r.1.bytes },
            )
          ]))
            ≡ (m >>= λ r. ok (cleared size r))
      go (ok r) = ap (λ (x : Option ℕ × Runtime S). ok x) (one r)
      go panic = refl
      go abort = refl
      go (exited n) = refl
      go overrun = refl

  alloc_zeroed-Noted :
      {events : List Event} (rt next : Runtime S) (handle size align : ℕ) (answer : Option ℕ)
      → Noted events rt
      → alloc_zeroed default_allocator handles tables handle size align rt ≡ ok (answer, next)
      → Noted (requested size answer ∷ events) next
  alloc_zeroed-Noted {events} rt next handle size align answer n e =
      let (r, given, f) =
        bind-ok (alloc default_allocator handles tables handle size align rt)
          (λ r. ok (cleared size r)) (answer, next)
          (sym (alloc_zeroed-cleared rt handle size align) ∙ e) in
      go r.0 r.1 given (ok_injective f)
    where
      go :
          (o : Option ℕ) (after : Runtime S)
          → alloc default_allocator handles tables handle size align rt ≡ ok (o, after)
          → cleared size (o, after) ≡ (answer, next)
          → Noted (requested size answer ∷ events) next
      go none after given f =
          subst (λ (r : Option ℕ × Runtime S). Noted (requested size r.0 ∷ events) r.1) f
            (alloc-Noted rt after handle size align none n given)
      go (some at) after given f =
          subst (λ (r : Option ℕ × Runtime S). Noted (requested size r.0 ∷ events) r.1) f
            (Noted-same after (cleared size (some at, after)).1
              (alloc-Noted rt after handle size align (some at) n given) refl refl refl)

  free-Noted :
      {events : List Event} (rt next : Runtime S) (handle ptr size align : ℕ)
      → Noted events rt
      → free default_allocator handles tables handle ptr size align rt ≡ ok next
      → Noted (other ∷ events) next
  unfolding free
  free-Noted {events} rt next handle ptr size align n e = elim (resolve-cases rt handle n.chosen) [
    | inl bad ↦ absurd (let no : abort ≡ ok next = rw (free, bad) at e in cc)
    | inr (a, found, nonzero) ↦ elim (Bool-cases (size == 0)) [
      | inl z ↦
          let same : rt ≡ next = ok_injective (rw (free, found, z) at e) in
          subst (λ (x : Runtime S). Noted (other ∷ events) x) same
            (record { chosen = n.chosen; note = n.note })
      | inr z ↦
          subst (λ (x : Runtime S). Noted (other ∷ events) x)
            (ok_injective (rw (free, found, z) at e))
            (record { chosen = n.chosen; note = unfold take_refusal in n.note })
    ]
  ]

  reset-Noted :
      {events : List Event} (rt next : Runtime S) (handle : ℕ)
      → Noted events rt
      → reset default_allocator handles tables handle rt ≡ ok next
      → Noted (other ∷ events) next
  unfolding reset
  reset-Noted {events} rt next handle n e = elim (resolve-cases rt handle n.chosen) [
    | inl bad ↦ absurd (let no : abort ≡ ok next = rw (reset, bad) at e in cc)
    | inr (a, found, nonzero) ↦ elim (Bool-cases ((tables a).reset rt.state).0) [
      | inl done ↦
          subst (λ (x : Runtime S). Noted (other ∷ events) x)
            (ok_injective (rw (reset, found, done) at e))
            (record { chosen = n.chosen; note = unfold take_refusal in n.note })
      | inr refused ↦ absurd (let no : abort ≡ ok next = rw (reset, found, refused) at e in cc)
    ]
  ]

  publish-Noted :
      {events : List Event} (rt next : Runtime S) (handle : ℕ)
      → Noted events rt
      → publish_allocator default_allocator handles tables handle rt ≡ ok next
      → Noted (other ∷ events) next
  unfolding publish_allocator
  publish-Noted {events} rt next handle n e = elim (Bool-cases (handle == 0)) [
    | inl z ↦ absurd (let no : abort ≡ ok next = rw (publish_allocator, z) at e in cc)
    | inr z ↦ elim (Bool-cases (check_record default_allocator handles tables handle)) [
      | inl c ↦
          subst (λ (x : Runtime S). Noted (other ∷ events) x)
            (ok_injective (rw (publish_allocator, z, c) at e))
            (record { chosen = ground arith; note = unfold take_refusal in n.note })
      | inr c ↦ absurd (let no : abort ≡ ok next = rw (publish_allocator, z, c) at e in cc)
    ]
  ]

  restore-Noted :
      {events : List Event} (rt next : Runtime S) (handle size : ℕ)
      → Noted events rt
      → restore_refusal default_allocator handles tables handle size rt ≡ ok next
      → Noted (restored size ∷ events) next
  unfolding restore_refusal
  restore-Noted {events} rt next handle size n e =
      elim (Bool-cases (size == 0 || size == refusal_unsized)) [
        | inl u ↦
            subst (λ (x : Runtime S). Noted (restored size ∷ events) x)
              (ok_injective (rw (restore_refusal, u) at e))
              (record { chosen = n.chosen; note = unfold take_refusal in rw u refl })
        | inr u ↦ elim (resolve-cases rt handle n.chosen) [
          | inl bad ↦ absurd (let no : abort ≡ ok next = rw (restore_refusal, u, bad) at e in cc)
          | inr (a, found, nonzero) ↦
              let named : (a == 0) ≡ false = ground arith in
              subst (λ (x : Runtime S). Noted (restored size ∷ events) x)
                (ok_injective (rw (restore_refusal, u, found) at e))
                (record { chosen = n.chosen; note = unfold take_refusal in rw (u, named) refl })
        ]
      ]

  take-Noted :
      {events : List Event} (rt : Runtime S)
      → Noted events rt
      → Noted (taken ∷ events) (take_refusal default_allocator handles tables rt).1
  unfolding take_refusal
  take-Noted rt n = record { chosen = n.chosen; note = refl }

  Log-Noted :
      (events : List Event) (rt : Runtime S) → Noted [] first → Log events rt → Noted events rt
  Log-Noted _ _ n fresh = n
  Log-Noted _ _ n (after_alloc {rt} {next} {size} {answer} log handle align e) =
      alloc-Noted rt next handle size align answer (Log-Noted _ rt n log) e
  Log-Noted _ _ n (after_alloc_zeroed {rt} {next} {size} {answer} log handle align e) =
      alloc_zeroed-Noted rt next handle size align answer (Log-Noted _ rt n log) e
  Log-Noted _ _ n (after_resize {rt} {next} {new_size} {answer} log handle ptr old_size align e) =
      resize-Noted rt next handle ptr old_size new_size align answer (Log-Noted _ rt n log) e
  Log-Noted _ _ n (after_free {rt} {next} log handle ptr size align e) =
      free-Noted rt next handle ptr size align (Log-Noted _ rt n log) e
  Log-Noted _ _ n (after_reset {rt} {next} log handle e) =
      reset-Noted rt next handle (Log-Noted _ rt n log) e
  Log-Noted _ _ n (after_publish {rt} {next} log handle e) =
      publish-Noted rt next handle (Log-Noted _ rt n log) e
  Log-Noted _ _ n (after_restore {rt} {next} {size} log handle e) =
      restore-Noted rt next handle size (Log-Noted _ rt n log) e
  Log-Noted _ _ n (after_take {rt} log) = take-Noted rt (Log-Noted _ rt n log)

  -- From a runtime with a selected allocator and no refusal noted, after any sequence of operations
  -- that return, `take_refusal` gives the size of the last request if that was refused and not yet
  -- taken, and "no size" otherwise. A request is a call of `alloc` or `alloc_zeroed` of a size that
  -- is not 0, of `resize`, or the refusal that `restore_refusal` put back, one of no size being
  -- none. `alloc` of size 0, `free`, `reset` and the choice of another allocator leave the note as
  -- it was.
  pub take_refusal-refused_last :
      (events : List Event) (rt : Runtime S)
      → first.selected ≢ 0
      → first.refused_by ≡ 0
      → Log events rt
      → (take_refusal default_allocator handles tables rt).0 ≡ refused_last events
  take_refusal-refused_last events rt chosen clear log =
      (Log-Noted events rt (record { chosen = chosen; note = unfold take_refusal in rw clear refl })
        log).note
