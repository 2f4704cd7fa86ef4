-- ===== src/Indexer/Cursor.antt =====
-- indexer/src/store.ts, `encodeCursor` and `decodeCursor`: the page cursor as opaque text.
use sealedstellar.Common.{ℕ, ◌<◌, ◌^◌, ◌≡◌, refl, String, List, [], ◌∷◌, Option, none, some, ◌>>=◌}
use sealedstellar.Common.Int.{pos}
use sealedstellar.Common.Text.{append, split, split-append}
use sealedstellar.Indexer.Runtime.{JsNumber, integer, fraction, not_finite, Runtime, IsRuntime}
use sealedstellar.Indexer.Types.{Cursor}

-- `!Number.isFinite(sortValue) || !Number.isInteger(id) || id < 0` is refused.
unfoldable pub check_cursor : JsNumber → JsNumber → Option Cursor
check_cursor not_finite id = none
check_cursor (integer z) (integer (pos n)) = some (record { sort_value = integer z; id = n })
check_cursor (fraction z) (integer (pos n)) = some (record { sort_value = fraction z; id = n })
check_cursor _ _ = none

module _ (rt : Runtime) where
  unfoldable pub encode_cursor : Cursor → String
  encode_cursor c =
      rt.to_base64url
        (append (rt.to_text c.sort_value) (String.◌∷◌ ":" (rt.to_text (integer (pos c.id)))))

  unfoldable pub decode_parts : List String → Option Cursor
  unfolding check_cursor
  decode_parts (a ∷ b ∷ []) = check_cursor (rt.number a) (rt.number b)
  decode_parts _ = none

  unfoldable pub decode_cursor : String → Option Cursor
  unfolding decode_parts
  decode_cursor raw = do decoded ← rt.of_base64url raw; decode_parts (split b':' decoded)

  -- A cursor with a natural sort value and an id that are safe numbers is decoded from its text.
  pub decode-encode_cursor :
      IsRuntime rt
      → (value id : ℕ) → value < 2 ^ 53
      → id < 2 ^ 53
      → decode_cursor (encode_cursor (record { sort_value = integer (pos value); id = id }))
        ≡ some (record { sort_value = integer (pos value); id = id })
  unfolding decode_cursor encode_cursor
  decode-encode_cursor ok value id h k = rw (
    ok.of-to_base64url (
        append (rt.to_text (integer (pos value))) (String.◌∷◌ ":" (rt.to_text (integer (pos id))))),
    split-append b':' ":" (rt.to_text (integer (pos value))) (rt.to_text (integer (pos id))) refl
        (ok.to_text-Lacks value h) (ok.to_text-Lacks id k),
    ok.number-to_text value h,
    ok.number-to_text id k,
  )
