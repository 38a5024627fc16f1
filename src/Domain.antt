-- ===== src/Domain.antt =====
-- The immutable envelopes of astrcontinuum/domain.
pub mod Identity
pub mod Event
