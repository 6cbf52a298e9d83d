-- ===== src/Runs/Clients.antt =====
-- The inference client of internal/platform/runs/clients.go: what it reads texts with, and results
-- whose error is a text.
pub mod Content
pub mod Scores
pub mod Prompts
pub mod Ollama
pub mod Gateway
pub mod Agrees
pub mod Answers
pub mod Resolved
use clawbot_server.Base.{String, Option, List}
use clawbot_server.Base.Int.{ℤ}
use clawbot_server.Json.{Raw, Fields}

-- What the client reads and writes texts with: the JSON that a text holds (`invalid` where it holds
-- none), the text of a message, `strconv.ParseFloat` in thousandths, rounded down, the verb `%q`, and
-- the order in which `range` takes a map.
pub record Reader : Type 0 where
  pub parse : String → Raw
  pub print : Raw → String
  pub parse_float : String → Option ℤ
  pub quoted : String → String
  pub order : Fields → Fields

-- A result, or the text of an error.
pub data Answer (A : Type 0) : Type 0 where
  answer : A → Answer A
  error : String → Answer A
