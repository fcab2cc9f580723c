-- ===== src/Cli.antt =====
-- The command line of the program: `url_shortener link <verb>` (src/cli_parser.cpp and src/cli).
pub mod Options
pub mod LinkArgs
pub mod Create
pub mod Update
pub mod HelpTexts
pub mod Verbs
pub mod Server
pub mod Dispatch
