-- ===== src/Examples.antt =====
-- Concrete instances of the interfaces, and the theorems applied to small inputs.
mod Engine
mod Memory
mod Statements
mod Storage
mod Handling
mod Working
mod Reading
mod Directives
mod Blocks
mod Serving
mod Requests
mod Posting
mod Leaving
mod Configuration
