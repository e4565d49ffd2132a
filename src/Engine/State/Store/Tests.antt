-- ===== src/Engine/State/Store/Tests.antt =====
-- Saving and loading on a store whose texts are the states themselves.
use trading_bot.Base.{◌≡◌, refl, true, false, some, none}
use trading_bot.Base.Float.Milli.{Milli, milli_float}
use trading_bot.Engine.Errors.{ok}
use trading_bot.Engine.State.{EngineState}
use trading_bot.Engine.State.Store.{
  Files, load, save, serialize, backed_up, Survives, write_tmp, back_up,
}
use trading_bot.Engine.State.Store.Recovery.{load-save, Interrupted-Survives}
use trading_bot.Engine.Fixtures.{yesterday}
use trading_bot.Engine.State.Store.Documents.{garbage, body, outer, codec, codec-IsFaithful}

-- A run of yesterday left a state; today's is its successor.
abbrev today_state : EngineState Milli
today_state = record yesterday { rebalance_retries = 1 }

abbrev on_disk : Files codec
on_disk = record { main = some (outer (body yesterday) 7); bak = none; tmp = some garbage }

load-save_example : load codec false (save codec today_state on_disk) ≡ ok today_state
load-save_example = load-save codec codec-IsFaithful today_state on_disk false refl

abbrev corrupt : Files codec
corrupt = record on_disk { main = some (outer (body yesterday) 8) }

Interrupted-Survives_example :
    Survives codec true yesterday on_disk
      (back_up codec (write_tmp codec (serialize codec yesterday) on_disk))
Interrupted-Survives_example =
    Interrupted-Survives codec codec-IsFaithful yesterday on_disk _ true refl backed_up
