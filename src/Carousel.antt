-- ===== src/Carousel.antt =====
-- The carousel of gitb-ui/app/assets/components/owl-carousel/owl.carousel.js.
pub mod State
pub mod Layout
pub mod Breakpoints
pub mod Controls
pub mod AutoPlay
pub mod Lazy
pub mod Moves
pub mod Events
pub mod Startup
pub mod Drag
pub mod Session
mod Tests
