-- ===== src/Examples.antt =====
-- Runs of the models at concrete inputs, one module per part of the program.
mod Queues
mod Lists
mod Tables
mod Polls
mod Serving
mod Sessions
mod Users
mod Joins
mod Buffers
mod Editing
mod Names
