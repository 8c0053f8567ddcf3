-- ===== src/Engine/Served.antt =====
-- What `commit` of sw/src/engine.c does with the oldest entry of the reorder buffer.
use rv.Common.{
  ◌==◌, if◌then◌else◌, All, ℕ, ◌≡◌, true, false, not, ◌&&◌, List, ◌∷◌, ◌++◌, ◌||◌, Bool,
}
use rv.Engine.State.{Engine, ExbData}

-- An operand of an entry in use waits for a tag.
abbrev pub waits_j : ℕ → ExbData → Bool
waits_j src x = x.busy && (not x.rj && x.qj == src)

abbrev pub waits_k : ℕ → ExbData → Bool
waits_k src x = x.busy && (not x.rk && x.qk == src)

abbrev pub waits : ℕ → ExbData → Bool
waits src x = waits_j src x || waits_k src x

-- The entry with the value in the operand that waits for the tag, the first if both do.
abbrev pub serve : ℕ → ℕ → ExbData → ExbData
serve src v x =
    if waits_j src x then record x { vj = v; rj = true } else record x { vk = v; rk = true }

-- `ys` is `xs`, but that the first entry that waits for the tag, if any does, is served.
pub data FirstServed (src v : ℕ) : List ExbData → List ExbData → Type 0 where
  none_waits : {xs : List ExbData} → All (λ x. waits src x ≡ false) xs → FirstServed src v xs xs
  first :
      (before : List ExbData) (x : ExbData) (behind : List ExbData)
      → All (λ y. waits src y ≡ false) before
      → waits src x ≡ true
      → FirstServed src v (before ++ (x ∷ behind)) (before ++ (serve src v x ∷ behind))
