-- ===== src/Indexer/Chain/Symbols.antt =====
-- indexer/src/chain.ts: the cache of getTokenSymbol.
use sealedstellar.Common.{◌≡◌, refl, String, Option, some, Result, Option-cases, inl, inr, ok, err}
use sealedstellar.Common.Dict.{Dict, lookup, lookup-insert_self}
use sealedstellar.Indexer.Value.{Value, null, text, big, num, boolean, arr, obj, other}
use sealedstellar.Indexer.Runtime.{JsNumber}
use sealedstellar.Indexer.Chain.{Simulation, simulate_view, ChainError}
use sealedstellar.Indexer.Chain.Views.{keep_symbol, get_token_symbol}

module _ (contract_code : String → Option JsNumber) where
  keep_symbol-lookup :
      (token : String) (result : Result Value ChainError) (cache : Dict String) (symbol : String)
      → (keep_symbol contract_code token result cache).0 ≡ ok symbol
      → lookup token (keep_symbol contract_code token result cache).1 ≡ some symbol
  keep_symbol-lookup token (err e) cache symbol read = absurd (cc)
  keep_symbol-lookup token (ok (text s)) cache symbol read =
      rw (lookup-insert_self token s cache) (cc)
  keep_symbol-lookup token (ok null) cache symbol read = absurd (cc)
  keep_symbol-lookup token (ok (big z)) cache symbol read = absurd (cc)
  keep_symbol-lookup token (ok (num n)) cache symbol read = absurd (cc)
  keep_symbol-lookup token (ok (boolean b)) cache symbol read = absurd (cc)
  keep_symbol-lookup token (ok (arr vs)) cache symbol read = absurd (cc)
  keep_symbol-lookup token (ok (obj fs)) cache symbol read = absurd (cc)
  keep_symbol-lookup token (ok other) cache symbol read = absurd (cc)

  -- A symbol that was read is in the cache after it.
  get_token_symbol-lookup :
      (token : String) (answer : Simulation) (cache : Dict String) (symbol : String)
      → (get_token_symbol contract_code token answer cache).0 ≡ ok symbol
      → lookup token (get_token_symbol contract_code token answer cache).1 ≡ some symbol
  unfolding get_token_symbol
  get_token_symbol-lookup token answer cache symbol read =
      elim (Option-cases (lookup token cache)) [
        | inr (s, kept) ↦
            let same = rw (kept, get_token_symbol) at read in rw (kept, get_token_symbol, kept) (cc)
        | inl new ↦
            let kept = rw (new, get_token_symbol) at read in
            rw (new, get_token_symbol)
              (keep_symbol-lookup token (simulate_view contract_code answer) cache symbol kept)
      ]

  -- After a symbol was read, every later read gives the same symbol, whatever the chain answers then.
  pub get_token_symbol-again :
      (token : String) (answer later : Simulation) (cache : Dict String) (symbol : String)
      → (get_token_symbol contract_code token answer cache).0 ≡ ok symbol
      → (get_token_symbol contract_code token later
          (get_token_symbol contract_code token answer cache).1).0
        ≡ ok symbol
  unfolding get_token_symbol
  get_token_symbol-again token answer later cache symbol read =
      rw (get_token_symbol-lookup token answer cache symbol read, get_token_symbol) refl
