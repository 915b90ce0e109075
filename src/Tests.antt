-- ===== src/Tests.antt =====
-- Runs of the definitions on concrete inputs, and the theorems applied to them.
mod Bitmaps
mod Classes
mod Logs
mod Caches
mod Slabs
mod Rings
mod Queues
mod Stores
mod Extents
mod Arenas
mod Larges
mod DoubleLists
mod Supplies
mod Purges
mod Returns
