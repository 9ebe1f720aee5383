-- ===== src/Demos/Pong.antt =====
-- demos/Pong: the rules of the game, without its drawing.
pub mod Paddle
pub mod Ball
pub mod Score
pub mod Collision
pub mod Game
