-- ===== src/Shell.antt =====
-- P2B: Shell/mysh.c: the parser of a command line, aliases, redirection and the loop that reads lines.
-- What the arrays of malloc hold before the shell writes to them is a parameter.
pub mod Str
pub mod Table
pub mod Parse
pub mod Run
pub mod Aliases
pub mod Words
pub mod Redirect
pub mod Child
pub mod Lines
pub mod Loop
mod Tests
