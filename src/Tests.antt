-- ===== src/Tests.antt =====
-- A small world in which the program runs, for tests and for the conditions of the theorems.
mod World
mod Laws
mod Layouts
mod Oracle
mod Lives
mod Upgrades
mod Ends
mod Payouts
mod Pools
mod Plays
mod Games
mod Trading
mod Rules
