-- ===== src/Engine/Commit.antt =====
-- `commit` of sw/src/engine.c: the oldest result goes to the register file.
use rv.Common.{◌==◌, if◌then◌else◌, ◌>>=◌, ℕ, true, not, ◌&&◌, Option, none, some, List, [], ◌∷◌}
use rv.Rob.{Commit, rob_commit}
use rv.Reg.{reg_write_data}
use rv.Engine.State.{Engine, ExbData}

-- The forwarding loop: it stops at the first operand that waits for the tag.
unfoldable pub forward_commit : ℕ → ℕ → List ExbData → List ExbData
forward_commit src v [] = []
forward_commit src v (x ∷ xs) =
    if x.busy && (not x.rj && x.qj == src)
    then record x { vj = v; rj = true } ∷ xs
    else if x.busy && (not x.rk && x.qk == src)
    then record x { vk = v; rk = true } ∷ xs
    else x ∷ forward_commit src v xs

-- The body of the `if`, for a commit that `rob_commit` has made.
unfoldable pub retire : Option Commit → Engine → Option Engine
retire none e = some e
retire (some c) e = do
  (_, reg) ← reg_write_data c.dest c.value e.reg
  some (record e {
    reg = reg;
    exb = record (e.exb) { buf = forward_commit c.src c.value e.exb.buf };
  })

unfoldable pub commit : Engine → Option Engine
commit e = do (c, rob) ← rob_commit e.rob; retire c (record e { rob = rob })
