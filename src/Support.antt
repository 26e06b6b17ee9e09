-- ===== src/Support.antt =====
-- What the handlers share: the environment, the bodies of requests and the answers.
pub mod Env
pub mod Decode
pub mod Answers
pub mod Written
