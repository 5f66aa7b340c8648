-- ===== src/Launch.antt =====
-- internal/secretlaunch: the signed manifest under which services start and get their secrets. A
-- map is an association list, a rune of a checked string is a byte: the checks refuse every rune
-- beyond ASCII, or do not tell such runes apart.
pub mod Fields
pub mod Decimal
pub mod Ascending
pub mod Rules
pub mod Valid
pub mod Services
pub mod Accepted
pub mod Json
pub mod Trust
pub mod Signed
pub mod Verified
pub mod Renewal
pub mod Genuine
pub mod Model
pub mod Order
pub mod Labels
pub mod Supervisor
pub mod Reconcile
pub mod Passes
pub mod Steps
pub mod Guarded
pub mod Pass
pub mod Reached
pub mod Data
pub mod Authority
pub mod Samples
pub mod SampleTexts
mod Tests
mod PassTests
