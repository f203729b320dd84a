-- ===== src/App.antt =====
-- frontend/src/App.jsx and what leads to its views: the address of the page, the links of
-- frontend/src/components/ShareModal.jsx, frontend/src/pages/Home.jsx, and
-- frontend/src/components/Navbar.jsx.
pub mod Tests
pub mod Params
pub mod Router
pub mod Laws
pub mod Share
pub mod Links
pub mod Dialogue
pub mod Pages
