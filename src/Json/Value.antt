-- ===== src/Json/Value.antt =====
-- JSON values and message bodies.
use raider_worker.Base.{Bool, Text, ℤ}

-- A number is an integer literal, or a literal with a fraction or an exponent, by its text.
mutual
  pub data Json : Type 0 where
    null : Json
    bool : Bool → Json
    int : ℤ → Json
    real : Text → Json
    str : Text → Json
    arr : Items → Json
    obj : Members → Json

  pub data Items : Type 0 where
    nil : Items
    cons : Json → Items → Items

  pub data Members : Type 0 where
    end : Members
    member : Text → Json → Members → Members

-- A `[]byte` that holds a message: nil, a text that is no JSON with the error that the scanner
-- reports, or the text of a value.
pub data Payload : Type 0 where
  absent : Payload
  garbage : Text → Text → Payload
  json : Json → Payload
