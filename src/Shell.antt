-- ===== src/Shell.antt =====
-- The command line of examples/client/main.go: Texts (what it uses of package strings), Arguments
-- (numbers and areas), Output (what it prints), Commands (handleCommand) and Session (the loops of
-- main); Numbers and EndToEnd prove what a command that is typed does.
pub mod Texts
pub mod Arguments
pub mod Numbers
pub mod Output
pub mod Commands
pub mod Typing
pub mod Calls
pub mod Totality
pub mod Calm
pub mod Session
pub mod EndToEnd
