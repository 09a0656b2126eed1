-- ===== src/Runtime/Background.antt =====
-- src/utils/background-tasks.ts: the tasks that are pending, and drainBackgroundTasks over what
-- happens while it waits. A task is named by a number; a task that fails settles too.
use lakira_backend.Base.{
  ℕ, ◌≡◌, ◌⊎◌, refl, Bool, true, false, Option, none, some, List, [], ◌∷◌, ◌++◌, ◌==◌, map, length,
  arith, if◌then◌else◌,
}
use lakira_backend.Text.{Text}

abbrev pub shutdown_drain_timeout_ms : ℕ
shutdown_drain_timeout_ms = 10000

-- `pending`, in the order of insertion
abbrev pub Tasks : Type 0
Tasks = List (ℕ × Text)

pub data TaskEvent : Type 0 where
  started : ℕ → Text → TaskEvent
  settled : ℕ → TaskEvent
  timed_out : TaskEvent

unfoldable pub run_in_background : ℕ → Text → Tasks → Tasks
run_in_background id label tasks = tasks ++ (id, label) ∷ []

unfoldable pub delete_task : ℕ → Tasks → Tasks
delete_task id [] = []
delete_task id ((n, label) ∷ tasks) =
    let rest = delete_task id tasks in if n == id then rest else (n, label) ∷ rest

unfoldable pub without_id : ℕ → List ℕ → List ℕ
without_id id [] = []
without_id id (n ∷ ns) = let rest = without_id id ns in if n == id then rest else n ∷ rest

abbrev pub keys_of : Tasks → List ℕ
keys_of = map (λ (id, _). id)

abbrev pub is_none_left : {A : Type 0} → List A → Bool
is_none_left [] = true
is_none_left (_ ∷ _) = false

-- The tasks that the current round of the loop waits for.
abbrev pub next_round : List ℕ → Tasks → List ℕ
next_round [] tasks = keys_of tasks
next_round (n ∷ ns) tasks = n ∷ ns

-- Waits for a round, and asks again; how many are left, and the tasks then. With a deadline the
-- timer ends the wait. No result: the loop still waits when the events end.
unfoldable pub drain_from : Bool → List ℕ → Tasks → List TaskEvent → Option (ℕ × Tasks)
drain_from has_deadline round tasks [] = if is_none_left tasks then some (0, tasks) else none
drain_from has_deadline round tasks (TaskEvent.started id label ∷ es) =
    let further = drain_from has_deadline round (run_in_background id label tasks) es in
    if is_none_left tasks then some (0, tasks) else further
drain_from has_deadline round tasks (TaskEvent.settled id ∷ es) =
    let left = delete_task id tasks in
    let further = drain_from has_deadline (next_round (without_id id round) left) left es in
    if is_none_left tasks then some (0, tasks) else further
drain_from has_deadline round tasks (TaskEvent.timed_out ∷ es) =
    let further = drain_from has_deadline round tasks es in
    if is_none_left tasks
    then some (0, tasks)
    else if has_deadline
    then some (length tasks, tasks)
    else further

unfoldable pub drain_background_tasks : Bool → Tasks → List TaskEvent → Option (ℕ × Tasks)
drain_background_tasks has_deadline tasks es = drain_from has_deadline (keys_of tasks) tasks es

length_none : (tasks : Tasks) → is_none_left tasks ≡ true → length tasks ≡ 0
length_none [] h = refl
length_none (_ ∷ _) h = cc

-- A drain answers how many tasks it leaves running, and without a deadline it leaves none.
pub drain_from_lem :
    (has_deadline : Bool) (round : List ℕ) (tasks : Tasks) (es : List TaskEvent) (n : ℕ)
    (left : Tasks)
    → drain_from has_deadline round tasks es ≡ some (n, left)
    → (n ≡ length left) × ((has_deadline ≡ true) ⊎ (n ≡ 0))
unfolding drain_from
drain_from_lem d round tasks [] n left e = ground (arith, length_none tasks)
drain_from_lem d round tasks (TaskEvent.started id label ∷ es) n left e =
    ground (
      arith,
      length_none tasks,
      drain_from_lem d round (run_in_background id label tasks) es n left,
    )
drain_from_lem d round tasks (TaskEvent.settled id ∷ es) n left e = ground (
  arith,
  length_none tasks,
  drain_from_lem d (next_round (without_id id round) (delete_task id tasks)) (delete_task id tasks)
      es n left,
)
drain_from_lem d round tasks (TaskEvent.timed_out ∷ es) n left e =
    ground (arith, length_none tasks, drain_from_lem d round tasks es n left)
