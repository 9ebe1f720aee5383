-- ===== src/Tests.antt =====
-- The library's results at concrete inputs, and small runs of the definitions.
mod Packets
mod Signals
mod Worlds
mod Ticks
mod Floats
mod Demos
mod Calls
mod Servers
mod Scenes
mod Managers
mod Joins
mod Games
mod Scalars
mod Asteroids
