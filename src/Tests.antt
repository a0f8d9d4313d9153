-- ===== src/Tests.antt =====
-- A device and a record to try the theorems on: the reports that the device answers with, a run of
-- every theorem that has conditions.
mod Setup
mod Keyboard
mod Mouse
mod Curve
mod Api
mod Demo
mod Screen
mod Pointer
mod Hid
mod Session
