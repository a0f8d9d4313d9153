-- ===== src/Machine.antt =====
-- What a run of the library works on: the device record of msdk/msdk.h, the calls that leave the
-- library (libusb, the C library), and the programs that read and change these.
mod Calls
mod State
pub mod Ends
pub mod Loop
pub use Calls.*
pub use State.*
