-- ===== src/Indexer/Value.antt =====
-- The values of `scValToNative`, which the sources read as `unknown`: one type of dynamic values.
use sealedstellar.Common.{Bool, String, List, [], ◌∷◌, Option, none, some, str_eq, if◌then◌else◌}
use sealedstellar.Common.Int.{ℤ}
use sealedstellar.Indexer.Runtime.{JsNumber}

-- `other` is any value that the sources never look into, such as bytes.
mutual
  pub data Value : Type 0 where
    null : Value
    text : String → Value
    big : ℤ → Value
    num : JsNumber → Value
    boolean : Bool → Value
    arr : Items → Value
    obj : Fields → Value
    other : Value

  pub data Items : Type 0 where
    nil : Items
    cons : Value → Items → Items

  pub data Fields : Type 0 where
    end : Fields
    field : String → Value → Fields → Fields

-- `record.key`; a missing key is `undefined`, here none.
unfoldable pub get : String → Fields → Option Value
get k end = none
get k (field j v fs) = if str_eq j k then some v else get k fs

abbrev pub items : Items → List Value
items nil = []
items (cons v vs) = v ∷ items vs

-- `typeof v === 'string'`, `'bigint'`, and `Array.isArray(v)`, with the value
abbrev pub as_text : Option Value → Option String
as_text (some (text s)) = some s
as_text _ = none

abbrev pub as_big : Option Value → Option ℤ
as_big (some (big z)) = some z
as_big _ = none

abbrev pub as_items : Option Value → Option (List Value)
as_items (some (arr vs)) = some (items vs)
as_items _ = none
