-- ===== src/Errors.antt =====
-- The error type of crates/tell/src/error.rs.
use Prim.Native.String.{String}
use tell_rs.Prelude.{ℕ, List}
use tell_rs.Buffer.Disk.{Kind}

-- A piece of a text that `format!` builds: literal text, a number, a byte as a character, the text
-- of an I/O error.
pub data Part : Type 0 where
  lit : String → Part
  num : ℕ → Part
  chr : ℕ → Part
  shown : Kind → Part

abbrev pub Message : Type 0
Message = List Part

pub data TellError : Type 0 where
  configuration : Message → TellError
  validation : String → Message → TellError
  network : Message → TellError
  closed : TellError
  io : Kind → TellError
  serialization : Message → TellError
  buffer : Message → TellError
  queue_full : ℕ → TellError
