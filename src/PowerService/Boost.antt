-- ===== src/PowerService/Boost.antt =====
-- power/Power.cpp: ApplyCpuFloorLocked, ApplyBoostLocked and RequestBoostLocked.
use Prim.Native.Nat.{min, max}
use android_device_meizu_m.Prelude.{
  ℕ, Bool, true, false, not, ◌&&◌, ◌||◌, Option, none, some, List, [], ◌∷◌, ◌+◌, ◌*◌, ◌%◌, ◌^◌, ltb,
  ◌==◌, if◌then◌else◌, is_zero, take, is_some, ℤ, pos, negsuc, le_bytes,
}
use android_device_meizu_m.Posix.Decimal.{decimal}
use android_device_meizu_m.PowerService.{
  FloorFds, Deadlines, Power, Nodes, System, no_deadlines, cpu_boost_floor_khz,
}
use android_device_meizu_m.PowerService.Write.{
  temp_failure_retry, OpenAnswer, no_open, opened, WriteAnswer, NodeIo, Node, written, is_value,
  write_node,
}

-- kCpuFloorPaths, by index
pub data Cluster : Type 0 where
  first second : Cluster

abbrev pub fd_of : Cluster → FloorFds → Option ℕ
fd_of first fds = fds.cluster0
fd_of second fds = fds.cluster1

abbrev pub with_fd : Cluster → Option ℕ → System → System
with_fd first fd s = record s {
  power = record s.power { cpu_floor_fds = record s.power.cpu_floor_fds { cluster0 = fd } };
}
with_fd second fd s = record s {
  power = record s.power { cpu_floor_fds = record s.power.cpu_floor_fds { cluster1 = fd } };
}

abbrev pub held_on : Cluster → Nodes → List (ℕ × List ℕ)
held_on first n = n.cluster0_freq_min
held_on second n = n.cluster1_freq_min

abbrev pub with_held : Cluster → List (ℕ × List ℕ) → System → System
with_held first held s = record s { nodes = record s.nodes { cluster0_freq_min = held } }
with_held second held s = record s { nodes = record s.nodes { cluster1_freq_min = held } }

-- ++boost_errors_
abbrev pub count_error : System → System
count_error s = record s {
  power = record s.power { boost_errors = (s.power.boost_errors + 1) % 2 ^ 32 };
}

-- What the kernel keeps for the other descriptors.
abbrev pub without : ℕ → List (ℕ × List ℕ) → List (ℕ × List ℕ)
without fd [] = []
without fd (h ∷ hs) = let rest = without fd hs in if h.0 == fd then rest else h ∷ rest

-- close(2)
abbrev pub close : Cluster → ℕ → System → System
close c fd s = with_held c (without fd (held_on c s.nodes)) s

-- if (fd >= 0) close(fd); fd = -1;
abbrev pub release_fd : Cluster → Option ℕ → System → System
release_fd c none s = s
release_fd c (some fd) s = with_fd c none (close c fd s)

abbrev pub release : Cluster → System → System
release c s = release_fd c (fd_of c s.power.cpu_floor_fds) s

abbrev pub release_all : System → System
release_all s = release second (release first s)

abbrev pub floor_bytes : List ℕ
floor_bytes = le_bytes 4 cpu_boost_floor_khz

-- What has gone through the descriptor.
abbrev pub through : Option ℕ → List ℕ
through none = []
through (some n) = take n floor_bytes

abbrev pub write_floor : Cluster → ℕ → WriteAnswer → System → Bool × System
write_floor c fd answer s =
    let count = written 4 answer in
    let s' = with_held c ((fd, through count) ∷ held_on c s.nodes) s in
    if is_value count 4
    then (true, with_fd c (some fd) s')
    else (false, close c fd (count_error s'))

abbrev pub open_floor : Cluster → OpenAnswer → WriteAnswer → System → Bool × System
open_floor c (no_open e) answer s = (false, count_error s)
open_floor c (opened fd) answer s = write_floor c fd answer s

-- One turn of the loop that acquires the floors, false where it breaks.
abbrev pub acquire : Cluster → NodeIo → System → Bool × System
acquire c io s =
    if is_some (fd_of c s.power.cpu_floor_fds)
    then (true, s)
    else open_floor c (temp_failure_retry io.opening) (temp_failure_retry io.writing) s

abbrev pub acquire_all : NodeIo → NodeIo → System → System
acquire_all io0 io1 s =
    let (go_on, s0) = acquire first io0 s in
    let s1 = (acquire second io1 s0).1 in if go_on then s1 else s0

abbrev pub both_held : FloorFds → Bool
both_held fds = is_some fds.cluster0 && is_some fds.cluster1

abbrev pub with_ready : Bool → System → System
with_ready ready s = record s { power = record s.power { cpu_floor_ready = ready } }

unfoldable pub apply_cpu_floor_locked : Bool → NodeIo → NodeIo → System → System
apply_cpu_floor_locked active io0 io1 s =
    let acquired = acquire_all io0 io1 s in
    let ready = both_held acquired.power.cpu_floor_fds in
    if not active
    then with_ready true (release_all s)
    else if ready
    then with_ready true acquired
    else release_all (with_ready false acquired)

-- The answers of one ApplyBoostLocked, and its reading of the clock.
pub record ApplyIo : Type 0 where
  pub foreground : NodeIo
  pub now : ℕ
  pub floor0 : NodeIo
  pub floor1 : NodeIo
  pub top_app : NodeIo

-- std::to_string
abbrev pub to_string : ℕ → List ℕ
to_string v = decimal v []

unfoldable pub apply_foreground : NodeIo → System → System
unfolding write_node
apply_foreground io s =
    let value = s.power.foreground_boost in
    let (error, s') = write_node Node.foreground_boost (to_string value) io s in
    if is_value s.power.applied_foreground value
    then s
    else if is_zero error
    then record s' { power = record s'.power { applied_foreground = some value } }
    else count_error s'

-- `allowed` of ApplyBoostLocked
abbrev pub is_allowed : Power → Bool
is_allowed p =
    p.interactive
    && not p.display_inactive
    && not p.low_power
    && not p.sustained_performance
    && not p.stop_boost

-- What is left of a deadline in the loop.
abbrev pub live : ℕ → ℕ → ℕ
live now deadline = if ltb now deadline then deadline else 0

abbrev pub live_deadlines : ℕ → Deadlines → Deadlines
live_deadlines now d = record {
  interaction = live now d.interaction;
  display = live now d.display;
  launch = live now d.launch;
}

-- `active` after the loop
abbrev pub is_active : ℕ → Deadlines → Bool
is_active now d = ltb now d.interaction || ltb now d.display || ltb now d.launch

-- boost_deadlines_ before the loop
abbrev pub allowed_deadlines : Power → Deadlines
allowed_deadlines p = if is_allowed p then p.boost_deadlines else no_deadlines

abbrev pub with_deadlines : Deadlines → System → System
with_deadlines d s = record s { power = record s.power { boost_deadlines = d } }

-- `value` of ApplyBoostLocked
abbrev pub boost_value : Bool → Power → ℕ
boost_value active p = if active then p.active_boost else p.base_boost

unfoldable pub apply_top_app : Bool → NodeIo → System → System
unfolding write_node
apply_top_app active io s =
    let value = boost_value active s.power in
    let (error, s') = write_node Node.top_app_boost (to_string value) io s in
    if is_value s.power.applied_boost value
    then s
    else if is_zero error
    then record s' { power = record s'.power { applied_boost = some value } }
    else count_error s'

unfoldable pub apply_boost_locked : ApplyIo → System → System
unfolding apply_foreground apply_cpu_floor_locked apply_top_app
apply_boost_locked io s =
    let s1 = apply_foreground io.foreground s in
    let d = allowed_deadlines s1.power in
    let active = is_active io.now d in
    let s2 = with_deadlines (live_deadlines io.now d) s1 in
    apply_top_app active io.top_app (apply_cpu_floor_locked active io.floor0 io.floor1 s2)

-- The sources of a boost: the indices 0, 1 and 2.
pub data Source : Type 0 where
  interaction display launch : Source

abbrev pub with_deadline : Source → ℕ → Deadlines → Deadlines
with_deadline interaction t d = record d { interaction = t }
with_deadline display t d = record d { display = t }
with_deadline launch t d = record d { launch = t }

abbrev pub deadline_of : Source → Deadlines → ℕ
deadline_of interaction d = d.interaction
deadline_of display d = d.display
deadline_of launch d = d.launch

-- `duration`, of a request that is not negative
abbrev pub duration : ℕ → ℕ → ℕ
duration duration_ms default_ms = if duration_ms == 0 then default_ms else min duration_ms 2000

abbrev pub ms : ℕ
ms = 1000000

-- The tests of RequestBoostLocked, which do not look at stop_boost_.
abbrev pub may_boost : Power → Bool
may_boost p =
    p.interactive && not p.display_inactive && not p.low_power && not p.sustained_performance

-- The deadlines after the request, at a reading of the clock.
abbrev pub requested : Source → ℤ → ℕ → ℕ → Power → Deadlines
requested source (negsuc n) default_ms clock p = with_deadline source 0 p.boost_deadlines
requested source (pos n) default_ms clock p =
    let end = clock + duration n default_ms * ms in
    if may_boost p
    then with_deadline source (max (deadline_of source p.boost_deadlines) end) p.boost_deadlines
    else p.boost_deadlines

-- RequestBoostLocked before it applies the boost.
abbrev pub requesting : Source → ℤ → ℕ → ℕ → System → System
requesting source duration_ms default_ms clock s = record s {
  power = record s.power {
    boost_requests = (s.power.boost_requests + 1) % 2 ^ 32;
    boost_deadlines = requested source duration_ms default_ms clock s.power;
  };
}

unfoldable pub request_boost_locked : Source → ℤ → ℕ → ℕ → ApplyIo → System → System
unfolding apply_boost_locked
request_boost_locked source duration_ms default_ms clock io s =
    apply_boost_locked io (requesting source duration_ms default_ms clock s)
