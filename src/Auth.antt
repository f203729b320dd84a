-- ===== src/Auth.antt =====
-- frontend/src/context/AuthContext.jsx, and the forms of frontend/src/pages/Login.jsx and
-- frontend/src/pages/Register.jsx.
pub mod Tests
pub mod Session
pub mod Laws
pub mod Races
pub mod Forms
pub mod Screens
