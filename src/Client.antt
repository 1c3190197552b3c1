-- ===== src/Client.antt =====
-- The client: its game, its screens, and what it sends.
pub mod ActiveWords
pub mod WordManager
pub mod Game
pub mod AuthUi
pub mod Printed
pub mod LeaderboardUi
pub mod Main
pub mod HowToPlayUi
pub mod Network
pub mod Menus
pub mod Connection
