-- ===== src/Booking.antt =====
-- frontend/src/components/booking: the public booking flow, its calendar and the owner's hours.
mod Tests
mod OwnerTests
mod SetupTests
pub mod Form
pub mod Flow
pub mod Calendar
pub mod Hours
pub mod Availability
pub mod Services
pub mod Setup
pub mod Manage
