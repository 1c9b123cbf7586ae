-- ===== src/Tests/Settings.antt =====
-- Settings read from an environment, and the theorems on them at concrete ones.
use choreography_saga_demo.Base.{
  String, text_dec, ◌≡◌, refl, [], ◌∷◌, Option, none, some, arith, ite,
}
use choreography_saga_demo.Base.Int.{pos, negsuc, ◌-ℤ◌, ◌≤ℤ◌, int_max}
use choreography_saga_demo.Relay.{batch_size}
use choreography_saga_demo.Config.{stoi, env_int, load}
use choreography_saga_demo.Config.Numbers.{relay_batch_size-positive, env_int-numeral}

abbrev setting : String → String → Option String
setting text key = ite (text_dec key "OUTBOX_RELAY_BATCH") (some text) none

stoi_skips_space : stoi "  -25 rows" ≡ some (negsuc 24)
unfolding stoi ◌-ℤ◌
stoi_skips_space = refl

stoi_too_large : stoi "2147483648" ≡ none
unfolding stoi
stoi_too_large = refl

relay_batch_size-positive_example :
    (pos 1 ≤ℤ batch_size (load (setting "-5")).relay_batch_size)
    × (batch_size (load (setting "-5")).relay_batch_size ≤ℤ int_max)
relay_batch_size-positive_example = relay_batch_size-positive (setting "-5")

env_int-numeral_example : env_int (setting "250") "OUTBOX_RELAY_BATCH" (pos 100) ≡ pos 250
unfolding text_dec
env_int-numeral_example =
    env_int-numeral (setting "250") "OUTBOX_RELAY_BATCH" (pos 100) 2 (5 ∷ 0 ∷ [])
      (omega arith, (omega arith, (omega arith, tt))) refl
