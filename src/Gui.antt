-- ===== src/Gui.antt =====
-- source/client/gui/gui.cpp: what a frame does to the client. Dear ImGui is `Ui`: what its inputs leave
-- in the buffers that they are given, as C strings that fit, and whether the button of the frame was
-- pressed. What is drawn is left out. Of GLFW there is whether it starts and whether it makes a window.
pub mod Login
pub mod Session
use piupiu.Common.{
  off_end, ℕ, zero, suc, Bool, true, false, ◌&&◌, List, [], ◌∷◌, Bytes, codes, length, ltb, ℤ, pos,
  negsuc, if◌then◌else◌, Result, ok, err, ◌>>=◌, Option, none, some, dangling,
}
use piupiu.Client.{Client, connect_as, post}

-- One frame of ImGui
pub record Ui : Type 0 where
  pub input_username : Bytes → Bytes
  pub input_ip : Bytes → Bytes
  pub input_port : ℤ → ℤ
  pub input_text : Bytes → Bytes
  pub button : Bool

-- `text` and `port` are static in `render`. The static buffers of the name and the address are written
-- anew by each frame, and read by nothing before.
pub record Gui : Type 0 where
  pub client : Client
  pub logged_in : Bool
  pub text : Bytes
  pub port : ℤ

abbrev pub is_positive : ℤ → Bool
is_positive (pos zero) = false
is_positive (pos (suc n)) = true
is_positive (negsuc n) = false

-- What each frame puts into the buffers
abbrev pub default_username : Bytes
default_username = codes "fernando"

abbrev pub default_ip : Bytes
default_ip = codes "127.0.0.1"

-- A frame behind the login; nobody reads what `Post` returns.
unfoldable pub render_feed : Gui → Ui → ℕ → Result Gui
render_feed g ui now =
    let text = ui.input_text g.text in
    if ui.button
    then (do
      (client, refused) ← post g.client text now
      ok (record g { client = client; text = [] }))
    else ok (record g { text = text })

-- A frame before the login. The name that is refused is overwritten by the next frame.
unfoldable pub render_login : Gui → Ui → Bool → ℕ → Result Gui
render_login g ui can_open now =
    let username = ui.input_username default_username in
    let ip = ui.input_ip default_ip in
    let port = ui.input_port g.port in
    if ui.button && (ltb 4 (length username) && (is_positive port && ltb 4 (length ip)))
    then (do
      client ← connect_as g.client username ip port can_open now
      ok (record g { client = client; logged_in = true; port = port }))
    else ok (record g { port = port })

unfoldable pub render : Gui → Ui → Bool → ℕ → Result Gui
unfolding render_feed render_login
render g ui can_open now =
    if g.logged_in then render_feed g ui now else render_login g ui can_open now

-- The main loop of `run` on these frames, with their times
unfoldable pub frames : Gui → Bool → List (Ui × ℕ) → Result Gui
unfolding render
frames g can_open [] = ok g
frames g can_open ((ui, now) ∷ rest) = do g' ← render g ui can_open now; frames g' can_open rest

-- `window`, a null pointer before `init`
pub data Window : Type 0 where
  null made : Window

-- What GLFW gives: whether glfwInit() succeeds, and whether glfwCreateWindow() returns a window
pub record Display : Type 0 where
  pub starts : Bool
  pub makes_window : Bool

-- `init`: the window that it leaves, and its result, which nobody reads; the path to the end of the
-- function has none. `run` handles that.
unfoldable pub init : Display → Window × Option ℕ
init d =
    if d.starts then (if d.makes_window then (made, none) else (null, some 1)) else (null, some 1)

-- `run` asks the window of `init` whether to close, without a look at what `init` returned. `init`,
-- `render` and `run` are declared to return an `int` and flow off their ends; `returns` is the
-- compiler's, and where it is false the run does not come behind `init`.
unfoldable pub run : Bool → Display → Gui → Bool → List (Ui × ℕ) → Result Gui
unfolding init frames
run returns d g can_open fs = do
  let (window, result) = init d
  window' ← elim result [ none ↦ off_end returns window | some r ↦ ok window ]
  elim window' [ null ↦ err dangling | made ↦ (do g' ← frames g can_open fs; off_end returns g') ]

unfoldable pub new_gui : Client → Gui
new_gui client = record { client = client; logged_in = false; text = []; port = pos 5000 }
