-- ===== src/Knob.antt =====
-- The dial of gitb-ui/app/assets/components/jquery.knob.js.
pub mod State
pub mod Value
pub mod Input
pub mod Events
mod Tests
