-- ===== src/PowerService/Write.antt =====
-- power/Power.cpp, WriteNode, and the answers of open(2) and write(2) that it meets.
use android_device_meizu_m.Prelude.{
  ℕ, Bool, false, Option, none, some, List, ℤ, pos, neg, ◌==◌, if◌then◌else◌, length, take,
}
use android_device_meizu_m.Posix.{eio}
use android_device_meizu_m.PowerService.{Nodes, System}

-- A call inside TEMP_FAILURE_RETRY: EINTR any number of times, then another answer.
pub data Retried (A : Type 0) : Type 0 where
  interrupted : Retried A → Retried A
  answered : A → Retried A

abbrev pub temp_failure_retry : {A : Type 0} → Retried A → A
temp_failure_retry (interrupted r) = temp_failure_retry r
temp_failure_retry (answered a) = a

-- open(2): an errno or a descriptor.
pub data OpenAnswer : Type 0 where
  no_open : ℕ → OpenAnswer
  opened : ℕ → OpenAnswer

-- write(2): an errno, the count that was asked for, or another count.
pub data WriteAnswer : Type 0 where
  no_write : ℕ → WriteAnswer
  whole : WriteAnswer
  partly : ℕ → WriteAnswer

pub record NodeIo : Type 0 where
  pub opening : Retried OpenAnswer
  pub writing : Retried WriteAnswer

-- The nodes that WriteNode is called for: kForegroundBoost, kTopAppBoost, kHotplugProfile,
-- kGpuDvfsMinLock and kGpuDvfsMaxLock.
pub data Node : Type 0 where
  foreground_boost top_app_boost hotplug_profile gpu_dvfs_min_lock gpu_dvfs_max_lock : Node

abbrev pub put : Node → List ℕ → Nodes → Nodes
put foreground_boost text n = record n { foreground = text }
put top_app_boost text n = record n { top_app = text }
put hotplug_profile text n = record n { hotplug_profile = text }
put gpu_dvfs_min_lock text n = record n { gpu_min_lock = text }
put gpu_dvfs_max_lock text n = record n { gpu_max_lock = text }

-- `written`, for a value of `expected` bytes: the count, or none for -1.
abbrev pub written : ℕ → WriteAnswer → Option ℕ
written expected (no_write e) = none
written expected whole = some expected
written expected (partly n) = some n

-- The error of a write that is not whole.
abbrev pub write_error : WriteAnswer → ℕ
write_error (no_write e) = e
write_error whole = eio
write_error (partly n) = eio

abbrev pub is_value : Option ℕ → ℕ → Bool
is_value none v = false
is_value (some u) v = u == v

-- What the node has taken when the call returns.
abbrev pub taken : Node → List ℕ → Option ℕ → Nodes → Nodes
taken node value none n = n
taken node value (some count) n = put node (take count value) n

-- The status, and the system with what the node took; the descriptor is closed on every path.
abbrev pub write_opened : Node → List ℕ → WriteAnswer → System → ℤ × System
write_opened node value answer s =
    let count = written (length value) answer in
    (
      if is_value count (length value) then pos 0 else neg (write_error answer),
      record s { nodes = taken node value count s.nodes },
    )

abbrev pub open_node : Node → List ℕ → OpenAnswer → WriteAnswer → System → ℤ × System
open_node node value (no_open e) answer s = (neg e, s)
open_node node value (opened fd) answer s = write_opened node value answer s

unfoldable pub write_node : Node → List ℕ → NodeIo → System → ℤ × System
write_node node value io s =
    open_node node value (temp_failure_retry io.opening) (temp_failure_retry io.writing) s
