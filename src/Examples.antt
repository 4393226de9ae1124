-- ===== src/Examples.antt =====
-- Runs of the models at concrete inputs, and each theorem that has a hypothesis or a binder at one.
mod Session
mod Calls
mod Waits
mod Machine
mod Runs
mod Starts
mod Sources
mod Answers
mod Pages
mod Requests
mod Http
mod Projects
mod Lists
mod Commands
mod Health
