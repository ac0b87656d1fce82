-- ===== src/Js.antt =====
-- What the program takes from JavaScript and Node, as a parameter of the model.
use drive_guard.Prelude.{ℕ, String, ◌≡◌, ◌⊎◌, Bool, true, false, Option}
use drive_guard.Json.{Value}

pub record Js : Type 0 where
  -- JSON.stringify of a string
  pub quote : String → String
  -- `<` on strings, the order of Array.prototype.sort
  pub before : String → String → Bool
  -- String of a whole number
  pub decimal : ℕ → String
  -- new Date(epochMs).toISOString()
  pub iso : ℕ → String
  -- createHash("sha256").update(text, "utf8").digest("hex")
  pub sha256 : String → String
  -- structuredClone; `none` is an exception, as of a value that holds a function
  pub structured_clone : Value → Option Value
  -- isDeepStrictEqual of node:util
  pub is_deep_strict_equal : Value → Value → Bool

-- `<` on strings is a strict linear order.
pub record IsStringOrder (before : String → String → Bool) : Type 0 where
  pub irreflexive : (a : String) → before a a ≡ false
  pub transitive : (a b c : String) → before a b ≡ true → before b c ≡ true → before a c ≡ true
  pub linear : (a b : String) → (before a b ≡ true) ⊎ ((a ≡ b) ⊎ (before b a ≡ true))
