-- ===== src/Handlers/Order.antt =====
-- The order in which `Tasks` lists the tasks of an executor.
use taskrunner.Prelude.{ℕ, ◌≡◌, Option, none, some, List}
use taskrunner.Task.{Task}
use taskrunner.TaskSet.{TaskSet}
use taskrunner.Registry.Sorting.{count}

-- How often the set has a task that `order` visits `n` times.
abbrev pub held : ℕ → {A : Type 0} → Option A → ℕ
held n none = 0
held n (some e) = n

-- `range` visits each task of the set once, and no other.
abbrev pub Visits : List ℕ → TaskSet → Type 0
Visits order s = (t : ℕ) → count t order ≡ held 1 (s t)
