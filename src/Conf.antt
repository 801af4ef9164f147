-- ===== src/Conf.antt =====
-- src/conf.c: the configuration file.
pub mod Words
pub mod Lexer
pub mod Reader
