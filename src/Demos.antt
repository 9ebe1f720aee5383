-- ===== src/Demos.antt =====
-- The parts of the example games in demos that do not draw.
pub mod InputManager
pub mod MapManager
pub mod Scalar
pub mod Asteroids
pub mod Pong
pub mod Start
pub mod Shooter
