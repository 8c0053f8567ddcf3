-- ===== src/Engine/Run.antt =====
-- `engine_run` of sw/src/engine.c: one clock cycle, last phase first.
use rv.Common.{◌>>=◌, ◌+◌, Bool, Option, some}
use rv.Int.{ℤ, pos}
use rv.Word.{u32}
use rv.Mem.{mem_read}
use rv.Mem.Endian.{word_bytes, word_of}
use rv.Engine.State.{Engine}
use rv.Engine.Commit.{commit}
use rv.Engine.WriteBack.{write_back, execute}
use rv.Engine.Issue.{issue}
use rv.Engine.Dispatch.{Locals, dispatch}

-- `mem_read(PC, &instruction, sizeof(instruction))`; if nothing is read the old word stays.
unfoldable pub fetch : Bool → Engine → Option Engine
fetch little e = do
  (_, out) ← mem_read little e.pc (some (word_bytes little e.instruction)) 4 e.mem
  bytes ← out
  word ← word_of little bytes
  some (record e { instruction = word })

-- A cycle up to `issue`.
unfoldable pub before_issue : Bool → Engine → Option Engine
before_issue little e = do
  e₁ ← fetch little e
  e₂ ← commit e₁
  e₃ ← write_back e₂
  some (execute e₃)

-- The result is always 0, whatever the phases return.
unfoldable pub engine_run : Bool → Locals → Engine → Option (ℤ × Engine)
engine_run little junk e = do
  e₁ ← before_issue little e
  (_, e₂) ← issue e₁
  (_, e₃) ← dispatch junk e₂
  some (pos 0, record e₃ { pc = u32 (e₃.pc + 4) })
