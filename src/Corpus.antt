-- ===== src/Corpus.antt =====
-- Where a driver gets its messages (internal/corpus): the mbox replay and the generator.
pub mod Mbox
pub mod Generator
use yarilo_loadtest.Base.{Bytes}

-- `Source`: what a driver asks for messages, with the state that the asking changes.
pub record Source : Type 1 where
  pub State : Type 0
  pub generate : (from to : Bytes) → State → Bytes × State
