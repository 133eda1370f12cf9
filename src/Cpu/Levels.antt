-- ===== src/Cpu/Levels.antt =====
-- runtime/cpu.c: what the cap of `LOKE_DISPATCH_CPU` lets run.
use loke.Prelude.{
  ℕ, zero, suc, ◌<◌, ◌≡◌, refl, ap, ◌∙◌, false, ◌&&◌, Option, none, some, List, [], arith, leb,
  if◌then◌else◌, get_or,
}
use loke.Prelude.Int.{pos}
use loke.Args.{same_string}
use loke.Cpu.{Features, cpu_supports, allowed_level, above_cap, cpu_dispatch, level_names}

-- A level's name is told from the names of the others.
allowed-named :
    (index : ℕ)
    → index < 3
    → allowed_level (get_or level_names index []) 0 level_names none ≡ some index
unfolding allowed_level same_string
allowed-named zero h = refl
allowed-named (suc zero) h = refl
allowed-named (suc (suc zero)) h = refl
allowed-named (suc (suc (suc n))) h = absurd (omega arith)

-- With `LOKE_DISPATCH_CPU` set to a value, a copy for a level that is not negative runs exactly if the processor supports the level
-- and the value names a level that is at least as high.
cpu_dispatch-capped :
    (f : Features) (cap : List ℕ) (level : ℕ)
    → cpu_dispatch f (some cap) (pos level) ≡ (
        elim (allowed_level cap 0 level_names none) [
          | none ↦ false
          | some allowed ↦ leb level allowed
        ]
        && cpu_supports f (pos level))
unfolding cpu_dispatch
cpu_dispatch-capped f cap level = go (allowed_level cap 0 level_names none)
  where
    go :
        (allowed : Option ℕ)
        → (if above_cap (pos level) allowed then false else cpu_supports f (pos level))
          ≡ (elim allowed [ none ↦ false | some a ↦ leb level a ] && cpu_supports f (pos level))
    go none = refl
    go (some a) = ground arith

-- With `LOKE_DISPATCH_CPU` set to the name of one of the three levels, a copy for a level that is
-- not negative runs exactly if that level is not above the named one and the processor supports it.
pub cpu_dispatch-named :
    (f : Features) (index level : ℕ)
    → index < 3
    → cpu_dispatch f (some (get_or level_names index [])) (pos level)
      ≡ (leb level index && cpu_supports f (pos level))
cpu_dispatch-named f index level h =
    cpu_dispatch-capped f (get_or level_names index []) level
    ∙ ap
        (λ (o : Option ℕ).
          elim o [ none ↦ false | some allowed ↦ leb level allowed ] && cpu_supports f (pos level))
        (allowed-named index h)
