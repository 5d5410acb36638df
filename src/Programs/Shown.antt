-- ===== src/Programs/Shown.antt =====
-- source/client/main.cpp with USE_GUI: the client program with its GUI.
use piupiu.Common.{◌≡◌, Bool, true, false, Result, ok, err, All, dangling, no_value, ◌&&◌}
use piupiu.Client.Packets.{IsWelcome}
use piupiu.Gui.{Gui, Display, Window, null, made, frames}
use piupiu.Gui

-- How the program with the GUI ends on a display: where GLFW does not start, or makes no window, the
-- loop asks a null pointer whether to close; otherwise `init` and the loop flow off their ends, and
-- in a build where such a function returns, the program ends with its window, and all that the
-- client sent are packets that every server under its invariant handles.
pub data GuiOutcome (returns : Bool) (d : Display) (r : Result Gui) : Type 0 where
  no_window : (d.starts && d.makes_window) ≡ false → r ≡ err dangling → GuiOutcome returns d r
  flowed_off :
      (d.starts && d.makes_window) ≡ true
      → returns ≡ false
      → r ≡ err no_value
      → GuiOutcome returns d r
  shown :
      (g : Gui)
      → (d.starts && d.makes_window) ≡ true
      → returns ≡ true
      → r ≡ ok g
      → All IsWelcome g.client.sent
      → GuiOutcome returns d r
