-- ===== src/Transport/Cbor/Value.antt =====
-- The items of cbor.go. A Go string or byte slice is the list of its bytes; `cArray` and `cMap`
-- hold values of their own type, so their lists are types of the block.
use tinku.Prelude.{ℕ, List, zero, suc}
use tinku.Prelude.Int.{ℤ}

mutual
  pub data Value : Type 0 where
    uint : ℕ → Value
    int : ℤ → Value
    text : List ℕ → Value
    bytes : List ℕ → Value
    array : Items → Value
    map : Entries → Value
    tag : ℕ → Value → Value

  pub data Items : Type 0 where
    nil : Items
    cons : Value → Items → Items

  pub data Entries : Type 0 where
    end : Entries
    entry : Value → Value → Entries → Entries

abbrev pub count_items : Items → ℕ
count_items nil = zero
count_items (cons v vs) = suc (count_items vs)

abbrev pub count_entries : Entries → ℕ
count_entries end = zero
count_entries (entry k v es) = suc (count_entries es)
