-- ===== src/Cpu.antt =====
-- runtime/cpu.c: which CPU levels the processor runs, and the cap of `LOKE_DISPATCH_CPU`.
pub mod Levels
use loke.Prelude.{
  ℕ, zero, suc, ◌+◌, Bool, true, false, ◌&&◌, Option, none, some, List, [], ◌∷◌, ◌++◌, ltb, ◌==◌,
  if◌then◌else◌, get_or,
}
use loke.Prelude.Int.{ℤ, pos, negsuc}
use loke.Prelude.Outcome.{Outcome, ok, exited}
use loke.Args.{same_string}
use loke.Format.{codes}

-- `level_names`, each with its terminator
abbrev pub level_names : List (List ℕ)
level_names =
    (codes "x86-64" ++ (0 ∷ []))
    ∷ (codes "x86-64-v2" ++ (0 ∷ []))
    ∷ (codes "x86-64-v3" ++ (0 ∷ []))
    ∷ []

-- What compiler-rt answers of the two levels above baseline.
pub record Features : Type 0 where
  pub v2 : Bool
  pub v3 : Bool

unfoldable pub cpu_supports : Features → ℤ → Bool
cpu_supports f (pos zero) = true
cpu_supports f (pos (suc zero)) = f.v2
cpu_supports f (pos (suc (suc zero))) = f.v3
cpu_supports f (pos (suc (suc (suc n)))) = false
cpu_supports f (negsuc n) = false

-- The last index whose name is the cap's, from `index` on; `none` is -1.
unfoldable pub allowed_level : List ℕ → (index : ℕ) → List (List ℕ) → Option ℕ → Option ℕ
unfolding same_string
allowed_level wanted index [] allowed = allowed
allowed_level wanted index (name ∷ names) allowed =
    allowed_level wanted (index + 1) names (if same_string wanted name then some index else allowed)

-- `level > allowed`
unfoldable pub above_cap : ℤ → Option ℕ → Bool
above_cap (pos n) none = true
above_cap (pos n) (some allowed) = ltb allowed n
above_cap (negsuc zero) none = false
above_cap (negsuc (suc n)) none = false
above_cap (negsuc n) (some allowed) = false

-- `cap` is the value of `LOKE_DISPATCH_CPU`, with its terminator, `none` where it is not set.
unfoldable pub cpu_dispatch : Features → (cap : Option (List ℕ)) → ℤ → Bool
unfolding allowed_level above_cap cpu_supports
cpu_dispatch f none level = cpu_supports f level
cpu_dispatch f (some cap) level =
    if above_cap level (allowed_level cap 0 level_names none) then false else cpu_supports f level

-- The run goes on, or the process exits with status 3.
unfoldable pub require_cpu : Features → ℤ → Outcome Bool
unfolding cpu_supports
require_cpu f level = if cpu_supports f level then ok true else exited 3
