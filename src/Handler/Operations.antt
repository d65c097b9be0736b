-- ===== src/Handler/Operations.antt =====
-- The operations that are watched: `OperationTracker` in echonet_lite/handler/handler_operation_tracker.go.
-- Times are nanoseconds. The context of an operation, which only the log shows, is left out.
pub mod Timeouts
use echonet_list.Base.{
  ℕ, ◌-◌, Bool, true, false, List, [], ◌∷◌, none, some, ◌==◌, ltb, length, if◌then◌else◌,
}
use echonet_list.Base.Keys.{Text, nat_eq, text_eq}
use echonet_list.Base.Maps.{lookup, insert, delete}

-- `OperationType`; any other number may occur too.
abbrev pub operation_discover : ℕ
operation_discover = 0

abbrev pub operation_update_properties : ℕ
operation_update_properties = 1

abbrev pub operation_get_properties : ℕ
operation_get_properties = 2

abbrev pub operation_set_properties : ℕ
operation_set_properties = 3

pub record OperationInfo : Type 0 where
  pub id : Text
  pub op_type : ℕ
  pub start_time : ℕ
  pub description : Text

pub record OperationTracker : Type 0 where
  pub operations : List (Text × OperationInfo)
  pub timeouts : List (ℕ × ℕ)

-- `NewOperationTracker`
unfoldable pub new_operation_tracker : OperationTracker
new_operation_tracker = record {
  operations = [];
  timeouts =
      (operation_discover, 30000000000)
      ∷ (operation_update_properties, 60000000000)
      ∷ (operation_get_properties, 10000000000)
      ∷ (operation_set_properties, 10000000000)
      ∷ [];
}

-- `StartOperation`
unfoldable pub start_operation : Text → ℕ → Text → ℕ → OperationTracker → OperationTracker
start_operation id op_type description now t = record t {
  operations =
      insert id (record { id = id; op_type = op_type; start_time = now; description = description })
        t.operations;
}

-- `CompleteOperation`; its outcome is only logged.
unfoldable pub complete_operation : Text → OperationTracker → OperationTracker
complete_operation id t = record t { operations = delete id t.operations }

-- An operation of a kind without a timeout never times out.
unfoldable pub times_out : ℕ → List (ℕ × ℕ) → OperationInfo → Bool
times_out now timeouts info = elim (lookup info.op_type timeouts) [
  | none ↦ false
  | some timeout ↦ ltb timeout (now - info.start_time)
]

unfoldable pub timed_out_ops : ℕ → List (ℕ × ℕ) → List (Text × OperationInfo) → List Text
timed_out_ops now timeouts [] = []
timed_out_ops now timeouts ((id, info) ∷ operations) =
    let rest = timed_out_ops now timeouts operations in
    if times_out now timeouts info then id ∷ rest else rest

unfoldable pub delete_each : List Text → List (Text × OperationInfo) → List (Text × OperationInfo)
delete_each [] operations = operations
delete_each (id ∷ ids) operations = delete_each ids (delete id operations)

-- `checkTimeouts`
unfoldable pub check_timeouts : ℕ → OperationTracker → OperationTracker
check_timeouts now t = record t {
  operations = delete_each (timed_out_ops now t.timeouts t.operations) t.operations;
}

-- `GetRunningOperations`
unfoldable pub running_operations : List (Text × OperationInfo) → List OperationInfo
running_operations [] = []
running_operations ((id, info) ∷ operations) = info ∷ running_operations operations

-- `GetOperationCount`
unfoldable pub get_operation_count : OperationTracker → ℕ
get_operation_count t = length t.operations

unfoldable pub operations_of_type : ℕ → List (Text × OperationInfo) → List OperationInfo
operations_of_type op_type [] = []
operations_of_type op_type ((id, info) ∷ operations) =
    let rest = operations_of_type op_type operations in
    if info.op_type == op_type then info ∷ rest else rest

-- `GetOperationsByType`
unfoldable pub get_operations_by_type : ℕ → OperationTracker → List OperationInfo
get_operations_by_type op_type t = operations_of_type op_type t.operations

-- `SetTimeout`
unfoldable pub set_timeout : ℕ → ℕ → OperationTracker → OperationTracker
set_timeout op_type timeout t = record t { timeouts = insert op_type timeout t.timeouts }
