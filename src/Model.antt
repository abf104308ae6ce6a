-- ===== src/Model.antt =====
-- The tables of backend/app/models and the enums of backend/app/core/enums.py that the services
-- use. Ids (UUIDs and Telegram's numbers) are only compared, so they are naturals; a moment is the
-- number of microseconds since some fixed one; a text that is only stored or shown is left out.
mod Enums
mod Time
mod Rooms
mod People
mod Queue
mod Follow
mod Feedback
mod SignIn
mod Mail
mod Values
mod Store
pub use Enums.*
pub use Time.*
pub use Rooms.*
pub use People.*
pub use Queue.*
pub use Follow.*
pub use Feedback.*
pub use SignIn.*
pub use Mail.*
pub use Values.*
pub use Store.*
