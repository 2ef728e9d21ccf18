-- ===== src/Tests.antt =====
-- The theorems at concrete inputs, on a device of the sizes that the sources have.
mod Devices
mod Workers
mod Store
mod Entries
mod Compat
mod Nodes
mod Power
mod Usb
mod Gps
mod SensorsHal
mod Startup
