-- ===== src/MiniProp/KillFile.antt =====
-- mini_prop_os/core/killfile.py: the marker that a fired kill switch leaves on disk, and what main.py
-- makes of it at the next start. A marker that is not a JSON object, or cannot be read, is unreadable.
-- The time in it is left out.
use trading_bot.Base.{ℕ, Bool, true, false, Option, none, some}
use trading_bot.MiniProp.Guardrails.{KillReason}

pub data MarkerFile : Type 0 where
  absent unreadable : MarkerFile
  halted_by : Option KillReason → MarkerFile

-- What a reader is told: no marker, a marker without a reason of its own, or one with it.
pub data Marker : Type 0 where
  unknown : Marker
  because : Option KillReason → Marker

-- A disk that refuses the write is logged, and leaves what was there.
abbrev pub write_kill_marker : Bool → Option KillReason → MarkerFile → MarkerFile
write_kill_marker true reason file = halted_by reason
write_kill_marker false reason file = file

abbrev pub read_kill_marker : MarkerFile → Option Marker
read_kill_marker absent = none
read_kill_marker unreadable = some unknown
read_kill_marker (halted_by reason) = some (because reason)

abbrev cleared : Option Marker → MarkerFile × Bool
cleared none = (absent, false)
cleared (some m) = (absent, true)

-- The file, and whether a marker was removed. Without an operator's tag, `none`, it raises.
abbrev pub clear_kill_marker : Option ℕ → MarkerFile → Option (MarkerFile × Bool)
clear_kill_marker none file = none
clear_kill_marker (some tag) file = some (cleared (read_kill_marker file))

-- `main` starts to trade only without a marker.
abbrev pub may_start : MarkerFile → Bool
may_start file = elim (read_kill_marker file) [ none ↦ true | some m ↦ false ]
