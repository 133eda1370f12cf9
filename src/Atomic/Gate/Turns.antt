-- ===== src/Atomic/Gate/Turns.antt =====
-- runtime/atomic.c: at most one thread is between `enter` and `leave`, each operation is indivisible,
-- and no state is a deadlock.
use loke.Prelude.{
  ℕ, ◌≡◌, ◌≢◌, refl, sym, ap, ◌∙◌, ◌⊎◌, inl, inr, true, false, [], ◌∷◌, ◌++◌, arith, ◌==◌,
  Bool-cases,
}
use mathlib.Core.Path.{subst}
use loke.Atomic.{
  Wide, Op, load, store, exchange, add, sub, and, or, xor, compare_exchange, apply, same,
}
use loke.Atomic.Gate.{
  Shared, Place, idle, waiting, entered, read_low, read_both, wrote_low, wrote, writes, Move, call,
  spin, take, fetch_low, fetch_high, keep, put_low, put_high, leave, update, System, step, start,
  Reach, begin, later, Serial, nothing, then_one, critical,
}

true-false : true ≡ false → ⊥
true-false e = absurd (cc)

-- A load, or a failed compare-exchange, leaves the value.
keeps : (op : Op) (v : Wide) → writes op v ≡ false → (apply op v).memory ≡ v
unfolding writes apply
keeps load v e = refl
keeps (compare_exchange expected desired) v e = ground arith
keeps (store x) v e = absurd (cc)
keeps (exchange x) v e = absurd (cc)
keeps (add x) v e = absurd (cc)
keeps (sub x) v e = absurd (cc)
keeps (and x) v e = absurd (cc)
keeps (or x) v e = absurd (cc)
keeps (xor x) v e = absurd (cc)

-- The halves at the address.
abbrev Stores : Shared → (low high : ℕ) → Type 0
Stores m low high = (m.low ≡ low) × (m.high ≡ high)

-- What a thread at `p` knows, where the operations that have ended left `now`.
abbrev Knows : (now : Wide) → Shared → Place → Type 0
Knows now m idle = Unit
Knows now m (waiting op) = Unit
Knows now m (entered op) = Stores m now.low now.high
Knows now m (read_low op l) = (l ≡ now.low) × Stores m now.low now.high
Knows now m (read_both op v) = (v ≡ now) × Stores m now.low now.high
Knows now m (wrote_low op v) = (v ≡ now) × Stores m (apply op v).memory.low now.high
Knows now m (wrote op v) = (v ≡ now) × Stores m (apply op v).memory.low (apply op v).memory.high

record Inv (v now : Wide) (m : Shared) (pc : ℕ → Place) : Type 0 where
  serial : Serial v m.ended now
  unique : (i j : ℕ) → critical (pc i) ≡ true → critical (pc j) ≡ true → i ≡ j
  locked : (i : ℕ) → critical (pc i) ≡ true → m.gate ≡ true
  owned : m.gate ≡ true → (i : ℕ) × (critical (pc i) ≡ true)
  free : m.gate ≡ false → Stores m now.low now.high
  knows : (i : ℕ) → Knows now m (pc i)

outside : (now : Wide) (m : Shared) (p : Place) → critical p ≡ false → Knows now m p
unfolding critical
outside now m idle e = tt
outside now m (waiting op) e = tt
outside now m (entered op) e = absurd (cc)
outside now m (read_low op l) e = absurd (cc)
outside now m (read_both op v) e = absurd (cc)
outside now m (wrote_low op v) e = absurd (cc)
outside now m (wrote op v) e = absurd (cc)

update_all :
    (P : Place → Type 0) (pc : ℕ → Place) (i : ℕ) (p : Place)
    → P p
    → ((j : ℕ) → i ≢ j → P (pc j))
    → (j : ℕ) → P (update pc i p j)
update_all P pc i p here others j = elim (Bool-cases (i == j)) [
  | inl e ↦ rw e here
  | inr e ↦ rw e (others j (ground arith))
]

update_same : (pc : ℕ → Place) (i : ℕ) (p : Place) → update pc i p i ≡ p
update_same pc i p = ground arith

module _ {v now : Wide} {m : Shared} {pc : ℕ → Place} (inv : Inv v now m pc) (i : ℕ) where
  -- A step outside the lock.
  stays_out :
      (p : Place) → critical (pc i) ≡ false → critical p ≡ false → Inv v now m (update pc i p)
  stays_out p before after = record {
    serial = inv.serial;
    unique = λ a b ca cb. ground (arith, inv.unique a b);
    locked = λ a ca. ground (arith, inv.locked a);
    owned = λ g. let (k, c) = inv.owned g in (k, ground arith);
    free = inv.free;
    knows = update_all (Knows now m) pc i p (outside now m p after) (λ j n. inv.knows j);
  }

  -- A step of the thread that has the lock.
  stays_in :
      (m' : Shared) (p : Place)
      → critical (pc i) ≡ true
      → critical p ≡ true
      → m'.gate ≡ m.gate
      → m'.ended ≡ m.ended
      → Knows now m' p
      → Inv v now m' (update pc i p)
  stays_in m' p before after gate ended known =
      let taken = inv.locked i before in
      record {
        serial = subst (λ h. Serial v h now) (sym ended) inv.serial;
        unique = λ a b ca cb. ground (arith, inv.unique a b, inv.unique i a, inv.unique i b);
        locked = λ a ca. gate ∙ taken;
        owned = λ g. (i, ground arith);
        free = λ g. absurd (let bad = sym taken ∙ sym gate ∙ g in true-false bad);
        knows =
            update_all (Knows now m') pc i p known
              (λ j n. outside now m' (pc j) (others j n before));
      }
    where
      others : (j : ℕ) → i ≢ j → critical (pc i) ≡ true → critical (pc j) ≡ false
      others j n before = elim (Bool-cases (critical (pc j))) [
        | inl c ↦ absurd (n (inv.unique i j before c))
        | inr c ↦ c
      ]

  -- The thread that takes the lock.
  takes :
      (op : Op) → m.gate ≡ false → Inv v now (record m { gate = true }) (update pc i (entered op))
  unfolding critical
  takes op g = record {
    serial = inv.serial;
    unique = λ a b ca cb. ground (arith, inv.locked a, inv.locked b);
    locked = λ a ca. refl;
    owned = λ e. (i, ap critical (update_same pc i (entered op)));
    free = λ e. absurd (true-false e);
    knows =
        update_all (Knows now (record m { gate = true })) pc i (entered op) (inv.free g)
          (λ j n. outside now (record m { gate = true }) (pc j) (nobody j));
  }
    where
      nobody : (j : ℕ) → critical (pc j) ≡ false
      nobody j = elim (Bool-cases (critical (pc j))) [
        | inl c ↦ absurd (true-false (sym (inv.locked j c) ∙ g))
        | inr c ↦ c
      ]

  -- The thread that gives the lock back: its operation is the next of the history.
  leaves :
      (op : Op)
      → critical (pc i) ≡ true
      → Stores m (apply op now).memory.low (apply op now).memory.high
      → Inv v
          (apply op now).memory
          (record m { gate = false; ended = m.ended ++ ((op, apply op now) ∷ []) })
          (update pc i idle)
  unfolding critical
  leaves op before stored =
      let m' : Shared = record m { gate = false; ended = m.ended ++ ((op, apply op now) ∷ []) } in
      record {
        serial = then_one op inv.serial;
        unique = λ a b ca cb. ground (arith, inv.unique i a, inv.unique i b);
        locked = λ a ca. ground (arith, inv.unique i a);
        owned = λ e. absurd (true-false (sym e));
        free = λ e. stored;
        knows =
            update_all (Knows (apply op now).memory m') pc i idle tt
              (λ j n. outside (apply op now).memory m' (pc j) (nobody j n));
      }
    where
      nobody : (j : ℕ) → i ≢ j → critical (pc j) ≡ false
      nobody j n = elim (Bool-cases (critical (pc j))) [
        | inl c ↦ absurd (n (inv.unique i j before c))
        | inr c ↦ c
      ]

-- Every step keeps the invariant, for the value of the history so far.
Move-Inv :
    {v now : Wide} {m m' : Shared} {p p' : Place} (pc : ℕ → Place) (i : ℕ)
    → Inv v now m pc
    → pc i ≡ p
    → Move m p m' p'
    → (after : Wide) × Inv v after m' (update pc i p')
unfolding critical
Move-Inv {now} pc i inv e (call op) = (now, stays_out inv i (waiting op) (ap critical e) refl)
Move-Inv {now} pc i inv e (spin {op} g) = (now, stays_out inv i (waiting op) (ap critical e) refl)
Move-Inv {now} pc i inv e (take {op} g) = (now, takes inv i op g)
Move-Inv {now} {m} pc i inv e (fetch_low {op}) =
    let k = subst (Knows now m) e (inv.knows i) in
    (now, stays_in inv i m (read_low op m.low) (ap critical e) refl refl refl (k.0, k))
Move-Inv {now} {m} pc i inv e (fetch_high {op} {l}) =
    let k = subst (Knows now m) e (inv.knows i) in
    let whole : record { low = l; high = m.high } ≡ now =
      λ j. record { low = k.0 j; high = k.1.1 j } in
    (
      now,
      stays_in inv i m (read_both op (record { low = l; high = m.high })) (ap critical e) refl refl
          refl (whole, k.1),
    )
Move-Inv {now} {m} pc i inv e (keep {op} {v} w) =
    let k = subst (Knows now m) e (inv.knows i) in
    let back : now ≡ (apply op v).memory = sym k.0 ∙ sym (keeps op v w) in
    (
      now,
      stays_in inv i m (wrote op v) (ap critical e) refl refl refl
          (k.0, (k.1.0 ∙ ap (λ (x : Wide). x.low) back, k.1.1 ∙ ap (λ (x : Wide). x.high) back)),
    )
Move-Inv {now} {m} pc i inv e (put_low {op} {v} w) =
    let k = subst (Knows now m) e (inv.knows i) in
    (
      now,
      stays_in inv i (record m { low = (apply op v).memory.low }) (wrote_low op v) (ap critical e)
          refl refl refl (k.0, (refl, k.1.1)),
    )
Move-Inv {now} {m} pc i inv e (put_high {op} {v}) =
    let k = subst (Knows now m) e (inv.knows i) in
    (
      now,
      stays_in inv i (record m { high = (apply op v).memory.high }) (wrote op v) (ap critical e)
          refl refl refl (k.0, (k.1.0, refl)),
    )
Move-Inv {v = first} {now} {m} pc i inv e (leave {op} {v}) =
    let k = subst (Knows now m) e (inv.knows i) in
    let stored = subst (λ x. Stores m (apply op x).memory.low (apply op x).memory.high) k.0 k.1 in
    let left : Inv first (apply op now).memory
        (record m { gate = false; ended = m.ended ++ ((op, apply op now) ∷ []) })
        (update pc i idle) =
      leaves inv i op (ap critical e) stored in
    (
      (apply op now).memory,
      subst
          (λ x.
            Inv first (apply op now).memory
              (record m { gate = false; ended = m.ended ++ ((op, apply op x) ∷ []) })
              (update pc i idle))
          (sym k.0) left,
    )

start-Inv : (v : Wide) → Inv v v (start v).shared (start v).pc
unfolding critical
start-Inv v = record {
  serial = nothing;
  unique = λ i j ci cj. absurd (cc);
  locked = λ i ci. absurd (cc);
  owned = λ g. absurd (cc);
  free = λ g. (refl, refl);
  knows = λ i. tt;
}

Reach-Inv : {v : Wide} {s : System} → Reach v s → (now : Wide) × Inv v now s.shared s.pc
Reach-Inv {v} begin = (v, start-Inv v)
Reach-Inv (later {s} r (step i mv)) = let (now, inv) = Reach-Inv r in Move-Inv s.pc i inv refl mv

-- In every reachable state, whatever the number of threads and the order of their steps, at most one
-- thread is between `enter` and `leave`.
pub mutual_exclusion :
    {v : Wide} {s : System}
    → Reach v s
    → (i j : ℕ) → critical (s.pc i) ≡ true
    → critical (s.pc j) ≡ true
    → i ≡ j
mutual_exclusion r = (Reach-Inv r).1.unique

-- In every reachable state the operations that have ended gave the answers that they give when they
-- are applied one after the other, each to the value that the one before it left; and while no
-- thread has the lock the address holds the value that the last one left.
pub operations-Serial :
    {v : Wide} {s : System}
    → Reach v s
    → (now : Wide) × Serial v s.shared.ended now
      × (s.shared.gate ≡ false → (s.shared.low ≡ now.low) × (s.shared.high ≡ now.high))
operations-Serial r = let (now, inv) = Reach-Inv r in (now, inv.serial, inv.free)

-- A thread between `enter` and `leave` can make a step.
can_move :
    (m : Shared) (p : Place) → critical p ≡ true → (m' : Shared) × (p' : Place) × Move m p m' p'
unfolding critical
can_move m idle c = absurd (cc)
can_move m (waiting op) c = absurd (cc)
can_move m (entered op) c = (m, read_low op m.low, fetch_low)
can_move m (read_low op l) c = (m, read_both op (record { low = l; high = m.high }), fetch_high)
can_move m (read_both op v) c = elim (Bool-cases (writes op v)) [
  | inl w ↦ (record m { low = (apply op v).memory.low }, wrote_low op v, put_low w)
  | inr w ↦ (m, wrote op v, keep w)
]
can_move m (wrote_low op v) c = (record m { high = (apply op v).memory.high }, wrote op v, put_high)
can_move m (wrote op v) c =
    (record m { gate = false; ended = m.ended ++ ((op, apply op v) ∷ []) }, idle, leave)

-- In every reachable state where a thread waits at the lock, either that thread can take it at once,
-- or the thread that has it, another one, can make a step.
pub no_deadlock :
    {v : Wide} {s : System} {op : Op}
    → Reach v s
    → (i : ℕ) → s.pc i ≡ waiting op
    → Move s.shared (waiting op) (record s.shared { gate = true }) (entered op)
      ⊎ ((j : ℕ) × (m : Shared) × (p : Place) × (i ≢ j)
          × (critical (s.pc j) ≡ true)
          × Move s.shared (s.pc j) m p)
unfolding critical
no_deadlock {s} r i e = elim (Bool-cases s.shared.gate) [
  | inr g ↦ inl (take g)
  | inl g ↦
      let (j, c) = (Reach-Inv r).1.owned g in
      let (m, p, mv) = can_move s.shared (s.pc j) c in inr (j, m, p, apart j c, c, mv)
]
  where
    apart : (j : ℕ) → critical (s.pc j) ≡ true → i ≢ j
    apart j c same =
        let waits = ap (λ k. critical (s.pc k)) (sym same) ∙ ap critical e in
        absurd (true-false (sym c ∙ waits))
