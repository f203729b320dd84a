-- ===== src/Vote.antt =====
-- frontend/src/pages/VotePage.jsx: the state of the page and its handlers, what it renders, and the
-- laws of both.
pub mod Tests
pub mod State
pub mod Screen
pub mod Rendering
pub mod Memory
