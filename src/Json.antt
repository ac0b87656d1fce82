-- ===== src/Json.antt =====
-- The JavaScript values that the program treats as data.
use drive_guard.Prelude.{ℕ, String, Bool}

-- A number is the text that `String` prints for it, which tells numbers apart but for the two
-- zeros, which are kept apart here.
pub data Number : Type 0 where
  finite : String → Number
  not_finite : String → Number
  minus_zero : Number

mutual
  -- `exotic` is a value that is no data: undefined, a function, a symbol, a bigint, an object with
  -- a prototype or symbols of its own, a sparse array, a cycle.
  pub data Value : Type 0 where
    null exotic : Value
    bool : Bool → Value
    text : String → Value
    num : Number → Value
    -- a whole number, as a version is
    count : ℕ → Value
    -- a UtcTimestamp, by its milliseconds
    time : ℕ → Value
    arr : Items → Value
    obj : Fields → Value

  pub data Fields : Type 0 where
    end : Fields
    field : String → Value → Fields → Fields

  pub data Items : Type 0 where
    nil : Items
    cons : Value → Items → Items
