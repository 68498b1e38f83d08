-- ===== src/Examples.antt =====
-- Runs of the theorems on small pages.
mod Tables
mod Playground
mod Requests
mod Reloads
mod Submissions
mod Boards
mod Sessions
mod Pages
