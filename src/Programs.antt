-- ===== src/Programs.antt =====
-- source/client/main.cpp and source/server/main.cpp: the two programs. The client's `main` is
-- `client_main`, and `gui_main` where it is built with USE_GUI and not given three arguments.
pub mod Served
pub mod Started
pub mod Connected
pub mod Shown
use piupiu.Common.{
  ℕ, Bool, true, false, List, [], ◌∷◌, Option, none, some, Bytes, codes, same, ℤ, negsuc,
  if◌then◌else◌, Result, ok, err, ◌>>=◌, or_fail, dangling, atoi,
}
use piupiu.Gui
use piupiu.Gui.{Ui, Gui, Display, new_gui}
use piupiu.Client.{Client, new_client, default_client, connect, shutdown}
use piupiu.Messaging.{Packet}
use piupiu.Console.Interface.{ConsoleInterface, Keys, new_console}
use piupiu.Console.Turns.{MainTurn, start}
use piupiu.Profiles.{Disk}
use piupiu.Replicas.{Socket}
use piupiu.Server.{Server, new_server}

-- The client's `main` on its three arguments, the turns of the main loop and of the threads of the
-- client, and the time before and behind them; `returns` is the compiler's. It is behind `Start`
-- when the main loop has ended, and what arrives then is left out; `none` is a call with other
-- arguments, which does nothing.
unfoldable pub client_main :
    Bool
    → (List Packet → List Packet)
    → List Bytes
    → Bool
    → Keys
    → List (MainTurn × ℕ)
    → ℕ
    → ℕ
    → Result (Option Client)
client_main returns sort (profile ∷ server_address ∷ server_port ∷ []) can_open k turns now later =
    do
      port ← atoi server_port
      let console = new_console (new_client profile server_address port)
      client ← connect console.client can_open now
      after ← start returns sort k (record console { client = client }) turns
      last ← (if after.running then ok after.client else shutdown after.client later)
      ok (some last)
client_main returns sort _ can_open k turns now later = ok none

-- The client's `main` on another number of arguments, built with USE_GUI: it shows these frames.
unfoldable pub gui_main : Bool → ℤ → Display → Bool → List (Ui × ℕ) → Result Gui
gui_main returns unset_port d can_open fs =
    Gui.run returns d (new_gui (default_client unset_port)) can_open fs

abbrev pub text_or : Bytes → Option Bytes → Bytes
text_or default none = default
text_or default (some text) = text

abbrev pub port_or : ℤ → Option Bytes → Result ℤ
port_or default none = ok default
port_or default (some text) = atoi text

abbrev pub is_true : Option Bytes → Bool
is_true none = false
is_true (some text) = same text (codes "true")

-- The server's `main` on BIND_IP, BIND_PORT, PEERS and PRIMARY, on the disk and the socket that the
-- address is bound to; `returns` is the compiler's. It prints PEERS before it makes the server,
-- where a null pointer is undefined.
unfoldable pub server_main :
    Bool → (bind_ip bind_port peers primary : Option Bytes) → Disk → Socket → Result Server
server_main returns bind_ip bind_port peers primary disk socket = do
  port ← port_or (negsuc 0) bind_port
  printed ← or_fail peers dangling
  new_server returns (text_or [] bind_ip) port (text_or [] peers) (is_true primary) disk socket
