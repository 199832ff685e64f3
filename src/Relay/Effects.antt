-- ===== src/Relay/Effects.antt =====
-- What the helpers of the relay's handlers have done when they succeed, whatever statements
-- might have failed. The modules below say the same of the handlers.
pub mod Enqueue
pub mod Register
pub mod Fetch
pub mod Acknowledge
pub mod Remove
