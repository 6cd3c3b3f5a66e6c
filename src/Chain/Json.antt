-- ===== src/Chain/Json.antt =====
-- What execution/reconcile.rs reads of the values of `serde_json`.
use solana_bot.Prelude.{
  ℕ, Bool, true, false, Option, none, some, List, [], ◌∷◌, String, if◌then◌else◌, leb, ◌==◌,
  string_eq, u64_max, try_from,
}
use solana_bot.Prelude.Int.{ℤ, pos, negsuc}

-- Numbers with a fraction are `other_number`.
mutual
  pub data Json : Type 0 where
    null other_number : Json
    boolean : Bool → Json
    number : ℤ → Json
    text : String → Json
    array : Items → Json
    object : Members → Json

  pub data Items : Type 0 where
    no_items : Items
    item : Json → Items → Items

  pub data Members : Type 0 where
    no_members : Members
    member : String → Json → Members → Members

abbrev pub items : Items → List Json
items no_items = []
items (item j js) = j ∷ items js

abbrev pub find_member : String → Members → Option Json
find_member key no_members = none
find_member key (member k j ms) = if k == key then some j else find_member key ms

-- `get` with a name, and `[name]`, which is `null` where there is none.
abbrev pub get_member : Json → String → Option Json
get_member (object ms) key = find_member key ms
get_member _ key = none

abbrev pub or_null : Option Json → Json
or_null none = null
or_null (some j) = j

abbrev pub field : Json → String → Json
field j key = or_null (get_member j key)

abbrev pub as_array : Json → Option (List Json)
as_array (array js) = some (items js)
as_array _ = none

abbrev pub as_str : Json → Option String
as_str (text s) = some s
as_str _ = none

abbrev pub as_u64 : Json → Option ℕ
as_u64 (number (pos n)) = try_from u64_max n
as_u64 _ = none

abbrev i64_max : ℕ
i64_max = 9_223_372_036_854_775_807

abbrev pub as_i64 : Json → Option ℤ
as_i64 (number (pos n)) = if leb n i64_max then some (pos n) else none
as_i64 (number (negsuc n)) = if leb n i64_max then some (negsuc n) else none
as_i64 _ = none

abbrev pub is_null : Json → Bool
is_null null = true
is_null _ = false
