-- ===== src/Tests/GuiRuns.antt =====
-- source/client/gui/gui.cpp on concrete inputs.
use piupiu.Common.{ℕ, ◌≡◌, refl, true, false, List, [], ◌∷◌, ◌++◌, pos, ok, from_c_array}
use piupiu.Messaging.{Packet}
use piupiu.Client.{new_client}
use piupiu.Gui.{Ui, Gui, default_username, default_ip, frames}
use piupiu.Gui.Login.{login_forgets}
use piupiu.Gui.{Display}
use piupiu.Tests.{alice, text}

abbrev logged_out : Gui
logged_out = record {
  client = new_client [] [] (pos 0);
  logged_in = false;
  text = [];
  port = pos 5000;
}

-- A frame in which alice types her name, and one with the button
abbrev typing : Ui
typing = record {
  input_username = λ s. alice;
  input_ip = λ s. s;
  input_port = λ p. p;
  input_text = λ s. s;
  button = false;
}

abbrev pressing : Ui
pressing = record typing { input_username = λ s. s; button = true }

login_forgets_example :
    (g' : Gui) × (p : Packet) × (frames logged_out true ((typing, 1) ∷ (pressing, 2) ∷ []) ≡ ok g')
    × (g'.logged_in ≡ true)
    × (g'.client.profile_handle ≡ default_username)
    × (g'.client.server_address ≡ default_ip)
    × (g'.client.sent ≡ logged_out.client.sent ++ p ∷ [])
    × (from_c_array p.payload ≡ ok default_username)
unfolding new_client
login_forgets_example =
    login_forgets logged_out ((typing, 1) ∷ []) pressing 2 refl refl (refl, tt) refl refl refl refl

-- alice logs in, types nothing more and posts.
abbrev session : List (Ui × ℕ)
session = (typing, 1) ∷ (pressing, 2) ∷ (typing, 3) ∷ (pressing, 4) ∷ []

abbrev screen : Display
screen = record { starts = true; makes_window = true }
