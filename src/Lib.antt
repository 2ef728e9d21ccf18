-- ===== src/Lib.antt =====
-- The native C and C++ code of the Meizu PRO 5 (m86) device tree: two fingerprint HALs, the lights HAL,
-- the legacy and the AIDL power HAL, the sensors HAL, the sensor layer of the GPS daemon, the USB serial
-- helper and the path library of the radio daemons. Each is a library or a program that Android loads
-- or starts; they share no state, so each has its own tree of modules.
--
-- Posix models what they use of the kernel and of libc. Posix/Exact is read_exact and write_exact of
-- fingerprint/FingerprintHAL.c; Posix/Decimal is the `%d` of snprintf.
--
-- Fingerprint models fingerprint/FingerprintHAL.c, the HAL for the FPC1020 sensor over libfprint. The
-- record Device of Fingerprint/Types holds the fields of struct m86_fingerprint_device that change,
-- with the arrays and the count as Slots. A function takes the device and what it is told from outside,
-- and gives the device, the status and a log of its effects in order: locks, joins, callbacks, prints
-- and file calls. Metadata is the identity file (random_u64, metadata_path, load_metadata_locked,
-- save_metadata_locked), Templates the prints in memory (free_templates_locked, load_templates_locked,
-- rotate_authenticator_locked, find_free_fid_locked), Worker the start and the stop of the thread
-- (start_worker_locked, reap_finished_worker, stop_worker, finish_worker), Enroll and Authenticate the
-- two thread functions, and Api with Api/Open the functions of the device's table; Api/Calls makes one
-- type of them, and Api/Arrays a history of calls and workers. Worker/Threads runs the critical sections
-- of framework threads and workers in any order; Tracks reads a log by an automaton of the mutex.
--
-- Compat models fingerprint/FingerprintCompat.c, which rewrites the callback table of Flyme's HAL and
-- stands between it and the framework; Compat/Open has the table as memory, offset by offset. Lights
-- models lights/lights.c, PowerHal models power/PowerHAL.c, VendorPaths models
-- independent/paths/VendorPaths.c. Tests applies the theorems to concrete inputs.
--
-- PowerService models power/Power.cpp and power/Power.h. The record Power holds the members of the
-- class, Nodes the texts that the kernel's nodes took last and the descriptors that are open on the CPU
-- floors. PowerService/Write is WriteNode, Config is LoadBoostConfigLocked, Profile the GPU's locks and
-- the profile (ApplyGpuFloorLocked, ApplyGpuCeilingLocked, ApplyPowerProfileLocked), Boost the CPU floors
-- and the boosts (ApplyCpuFloorLocked, ApplyBoostLocked, RequestBoostLocked), and Calls the constructor,
-- the destructor, setMode, setBoost, the two queries and a round of BoostWorker; run_all makes them in
-- any order. Frame says what a write leaves alone, Applied and Modes are about one step each, Asked
-- what the calls ask for by the modes, and the other modules are about sequences of calls.
--
-- UsbSerial models usb/m86_usb_serial.cpp, function by function, with main at its end. GpsVendor models
-- the event queue and, in GpsVendor/Manager, the sensor manager of gps/vendor/GpsVendor.cpp. Sensors
-- models sensors/hal: Timestamps is TimestampNormalizer.h, Poll is Sensors::poll with its buffer as a
-- list, Calls the rest of Sensors.cpp. Services models the main functions of audio/service/service.cpp
-- and gatekeeper/service.cpp.
--
-- Bounds and scripts. Answers of the kernel, of libfprint, of pthread and of Flyme's code are arguments:
-- one answer for one call, a list of rounds for the loop of a worker, a script for a loop of read(2) or
-- write(2). A script ends in an answer that ends the loop, so no loop on it needs fuel; the list of
-- rounds may end before a worker does, and then the worker's result is `none`. The loops of the USB
-- helper recurse on the attempts that are left, from the 100 of the source. The clocks of PowerService
-- count nanoseconds from 0 and do not overflow. Sizes that the code
-- computes modulo 2 ^ 64 or 2 ^ 32 are computed so. A status is an integer, -errno where the code
-- returns it; the hypotheses named Fits say that an errno is positive and a count is at most what was
-- asked for.
--
-- Not modelled: log messages, the fields of the module and device tables that never change, the
-- mutexes of Compat, Lights, PowerHal, PowerService, GpsVendor and Sensors, where a call is one step,
-- and the pointers' addresses; the hint sessions and dump of the AIDL power HAL; the conversions of
-- sensor events, which are another library's; the probe program in gps/vendor/GpsVendor.cpp. The
-- entry points that register one service (power, camera), the forwarding symbols of
-- gps/GpsCompat.cpp and camera/CameraCompat.cpp, the Java settings (parts), the scripts (tools) and the
-- configuration are outside this library.
mod Prelude
pub mod Posix
pub mod Fingerprint
pub mod Compat
pub mod Lights
pub mod PowerHal
pub mod PowerService
pub mod UsbSerial
pub mod GpsVendor
pub mod Sensors
pub mod Services
pub mod VendorPaths
mod Tests
