-- ===== src/Ruby.antt =====
-- The Ruby values and errors that cross the boundary, and the text of an error message.
-- A Ruby object that the extension never looks into is `object` with its identity.
pub mod Effects
pub mod Vm
use prosody_rb.Base.{ℕ, ℤ, Bool, String, List}

pub data Value : Type 0 where
  nil : Value
  boolean : Bool → Value
  integer : ℤ → Value
  string : String → Value
  range : Value → Value → Bool → Value
  object : ℕ → Value

-- A piece of a `format!` call: a literal, or an argument that is still to be rendered.
pub data Part : Type 0 where
  lit : String → Part
  number : ℕ → Part
  signed : ℤ → Part
  quoted : String → Part
  inspected : Value → Part

abbrev pub Message : Type 0
Message = List Part

pub data ErrorClass : Type 0 where
  argument_error runtime_error type_error index_error : ErrorClass
  transient_state_error permanent_state_error : ErrorClass

-- `magnus::Error`: one that the extension builds, or an exception that Ruby raised.
pub data Error : Type 0 where
  new : ErrorClass → Message → Error
  exception : Value → Error
