-- ===== src/Demos/Shooter.antt =====
-- demos/Shooter: the rules of the game, without its drawing. Its input manager and its map have modules of their own.
pub mod Player
pub mod HealthSpawner
pub mod Tiles
pub mod Game
pub mod Floor
pub mod Places
