-- ===== src/Executor/Live.antt =====
-- The goroutines that are running a task, or have yet to say that they ended.
use taskrunner.Prelude.{ℕ, ◌+◌, ◌==◌, if◌then◌else◌, Bool, true, false, ◌&&◌, List, [], ◌∷◌}
use taskrunner.Executor.{Phase, spawned, executing, decided, settled, Run}

-- A goroutine that has not yet sent on the terminal channel.
abbrev pub is_live : Phase → Bool
is_live spawned = true
is_live (executing _) = true
is_live (decided _ _ _) = true
is_live (settled _ _) = true
is_live _ = false

unfoldable pub live : ℕ → List Run → ℕ
live t [] = 0
live t (r ∷ rs) = (if r.task == t && is_live r.phase then 1 else 0) + live t rs
