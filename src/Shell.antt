-- ===== src/Shell.antt =====
-- Project2/shell.c: how a command line becomes a pipeline. The text `a b | c d | e f > temp.txt`, which stands in the
-- body of `exec` and is no C, is left out.
pub mod Tokenizer
pub mod Split
pub mod Exec
pub mod Recall
pub mod Main
pub mod Prompt
mod Tests
