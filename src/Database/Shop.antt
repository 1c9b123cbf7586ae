-- ===== src/Database/Shop.antt =====
-- What Database promises its callers: a shop that has units of SKUs, holds some of them for sagas, and
-- takes each request once. No tables, ids, events or outbox.
use choreography_saga_demo.Base.{
  String, text_dec, Bool, true, ◌||◌, Option, none, some, ite, if◌then◌else◌,
}
use choreography_saga_demo.Base.Int.{ℤ, pos, ◌+ℤ◌, ◌-ℤ◌, ltb_ℤ}
use choreography_saga_demo.Domain.{is_poison_sku}

-- What a saga has: no reservation yet, units of a SKU, or a reservation that was released.
pub data Held : Type 0 where
  nothing : Held
  holding : String → ℤ → Held
  returned : Held

-- `available` is none for a SKU that the shop does not sell; `seen` says which requests it has taken.
pub record Shop : Type 0 where
  pub seen : String → String → Bool
  pub available : String → Option ℤ
  pub held : String → Held

abbrev pub change_at : String → (ℤ → ℤ) → String → Option ℤ → Option ℤ
change_at sku f k none = none
change_at sku f k (some n) = some (ite (text_dec k sku) (f n) n)

abbrev pub mark : String → String → Shop → Shop
mark key consumer s = record s {
  seen = λ k c. ite (text_dec key k) (ite (text_dec consumer c) true (s.seen k c)) (s.seen k c);
}

abbrev pub put : String → Held → Shop → Shop
put saga h s = record s { held = λ k. ite (text_dec saga k) h (s.held k) }

abbrev pub change : String → (ℤ → ℤ) → Shop → Shop
change sku f s = record s { available = λ k. change_at sku f k (s.available k) }

abbrev pub amount : Option ℤ → ℤ
amount none = pos 0
amount (some n) = n

abbrev pub refuses : String → ℤ → Shop → Bool
refuses sku q s = is_poison_sku sku || ltb_ℤ (amount (s.available sku)) q

-- Units move to a saga that has none yet, and back from one that holds them.
abbrev pub hold : String → String → ℤ → Held → Shop → Shop
hold saga sku q nothing s = change sku (λ n. n -ℤ q) (put saga (holding sku q) s)
hold saga sku q (holding _ _) s = s
hold saga sku q returned s = s

abbrev pub give_back : String → Held → Shop → Shop
give_back saga nothing s = s
give_back saga (holding sku q) s = change sku (λ n. n +ℤ q) (put saga returned s)
give_back saga returned s = s

-- A request names its saga by a text, which is an id or is not (`none`). A reservation is turned down
-- for the poison SKU and for want of units; a request seen before does nothing.
abbrev pub hold_for : Option String → String → ℤ → Shop → Shop
hold_for none sku q s = s
hold_for (some saga) sku q s = hold saga sku q (s.held saga) s

abbrev pub give_back_for : Option String → Shop → Shop
give_back_for none s = s
give_back_for (some saga) s = give_back saga (s.held saga) s

unfoldable pub shop_reserve : Option String → String → String → String → ℤ → Shop → Shop
shop_reserve saga key consumer sku q s =
    if s.seen key consumer
    then s
    else mark key consumer (if refuses sku q s then s else hold_for saga sku q s)

unfoldable pub shop_release : Option String → String → String → Shop → Shop
shop_release saga key consumer s =
    if s.seen key consumer then s else mark key consumer (give_back_for saga s)
