-- ===== src/Json.antt =====
-- JavaScript values as they cross the RPC wire: `Record<string, unknown>`
-- is `Fields`. `opaque` stands for a Buffer, a Date or an Error.
use nestjs_microservice_mono.Prelude.{ℕ, String, Bool, Option, none, some, ◌==◌, if◌then◌else◌}

mutual
  pub data Json : Type 0 where
    undefined null : Json
    bool : Bool → Json
    num : ℕ → Json
    str : String → Json
    opaque : String → Json
    arr : Items → Json
    obj : Fields → Json

  pub data Items : Type 0 where
    nil : Items
    cons : Json → Items → Items

  pub data Fields : Type 0 where
    end : Fields
    field : String → Json → Fields → Fields

-- The value of `o[key]`.
abbrev pub property : String → Fields → Option Json
property k end = none
property k (field j v fs) = if j == k then some v else property k fs

-- `isNonEmptyString` of libs/common/src/events/schemas.ts, with the text that its type guard narrows to.
abbrev pub nonempty_string : Json → Option String
nonempty_string (str s) = if s == "" then none else some s
nonempty_string _ = none
