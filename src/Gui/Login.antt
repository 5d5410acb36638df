-- ===== src/Gui/Login.antt =====
-- source/client/gui/gui.cpp: who is logged in.
use piupiu.Common.{
  if-false, ℕ, ◌≤◌, ◌≡◌, refl, ◌∙◌, Bool, true, false, List, [], ◌∷◌, ◌++◌, Bytes, length, ℤ, ok,
  All, IsText, arith, from_c_array,
}
use piupiu.Messaging.{Packet, next_seqn}
use piupiu.Messaging.Payload.{command-Carries}
use piupiu.Client.{Client, opened, connect_as, connect, send_message_to_server}
use piupiu.Gui.{Ui, Gui, is_positive, default_username, default_ip, render_login, render, frames}

-- The port after frames in which nothing is pressed
abbrev pub port_after : List (Ui × ℕ) → ℤ → ℤ
port_after [] port = port
port_after ((ui, now) ∷ rest) port = port_after rest (ui.input_port port)

render-unpressed :
    (g : Gui) (ui : Ui) (can_open : Bool) (now : ℕ)
    → g.logged_in ≡ false
    → ui.button ≡ false
    → render g ui can_open now ≡ ok (record g { port = ui.input_port g.port })
unfolding render render_login
render-unpressed g ui can_open now out unpressed = ground (arith, out, unpressed)

render-pressed :
    (g : Gui) (ui : Ui) (now : ℕ) (c : Client)
    → g.logged_in ≡ false
    → ui.button ≡ true
    → ui.input_username default_username ≡ default_username
    → ui.input_ip default_ip ≡ default_ip
    → is_positive (ui.input_port g.port) ≡ true
    → connect_as g.client default_username default_ip (ui.input_port g.port) true now ≡ ok c
    → render g ui true now
      ≡ ok (record g { client = c; logged_in = true; port = ui.input_port g.port })
unfolding render render_login
render-pressed g ui now c out pressed same_name same_ip positive ran =
    if-false g.logged_in _ _ out ∙ (rw (pressed, same_name, same_ip, positive, ran) refl)

-- The frames before the button change the port alone: what they typed elsewhere is gone.
frames-unpressed :
    (g : Gui) (can_open : Bool) (typed rest : List (Ui × ℕ))
    → g.logged_in ≡ false
    → All (λ f. f.0.button ≡ false) typed
    → frames g can_open (typed ++ rest)
      ≡ frames (record g { port = port_after typed g.port }) can_open rest
unfolding frames
frames-unpressed g can_open [] rest out h = refl
frames-unpressed g can_open ((ui, now) ∷ typed) rest out h =
    rw (render-unpressed g ui can_open now out h.0)
      (frames-unpressed (record g { port = ui.input_port g.port }) can_open typed rest out h.1)

-- The packet that a connection sends
connect_as-sent :
    (c : Client) (handle address : Bytes) (port : ℤ) (now : ℕ)
    → IsText handle
    → length handle ≤ 511
    → c.has_threads ≡ false
    → (c' : Client) × (p : Packet) × (connect_as c handle address port true now ≡ ok c')
      × (c'.profile_handle ≡ handle)
      × (c'.server_address ≡ address)
      × (c'.sent ≡ c.sent ++ p ∷ [])
      × (from_c_array p.payload ≡ ok handle)
unfolding connect_as connect send_message_to_server
connect_as-sent c handle address port now text fits once =
    let carried =
      command-Carries (next_seqn c.last_sent_seqn) now handle text (omega (arith, fits)) in
    let (p, made, type, seqn, len, reads) = carried.0 in
    (
      record c {
        profile_handle = handle;
        server_address = address;
        server_port = port;
        descriptor = opened;
        last_sent_seqn = next_seqn c.last_sent_seqn;
        sent = c.sent ++ p ∷ [];
        has_threads = true;
      },
      p,
      rw (made, once) refl,
      refl,
      refl,
      refl,
      reads,
    )

pub default_username-IsText : IsText default_username
default_username-IsText = (
  (λ e. omega (arith, e)),
  (
    (λ e. omega (arith, e)),
    (
      (λ e. omega (arith, e)),
      (
        (λ e. omega (arith, e)),
        (
          (λ e. omega (arith, e)),
          ((λ e. omega (arith, e)), ((λ e. omega (arith, e)), ((λ e. omega (arith, e)), tt))),
        ),
      ),
    ),
  ),
)

-- Every frame forgets the name and the address that were typed before it. Whatever was typed in the
-- frames before the button, a press in a frame that types nothing itself, with a port above 0, connects
-- a client that has not connected yet as "fernando" to 127.0.0.1.
pub login_forgets :
    (g : Gui) (typed : List (Ui × ℕ)) (press : Ui) (now : ℕ)
    → g.logged_in ≡ false
    → g.client.has_threads ≡ false
    → All (λ f. f.0.button ≡ false) typed
    → press.button ≡ true
    → press.input_username default_username ≡ default_username
    → press.input_ip default_ip ≡ default_ip
    → is_positive (press.input_port (port_after typed g.port)) ≡ true
    → (g' : Gui) × (p : Packet) × (frames g true (typed ++ (press, now) ∷ []) ≡ ok g')
      × (g'.logged_in ≡ true)
      × (g'.client.profile_handle ≡ default_username)
      × (g'.client.server_address ≡ default_ip)
      × (g'.client.sent ≡ g.client.sent ++ p ∷ [])
      × (from_c_array p.payload ≡ ok default_username)
unfolding frames
login_forgets g typed press now out once unpressed pressed same_name same_ip positive =
    let port = press.input_port (port_after typed g.port) in
    let (c, p, ran, named, at, sent, reads) =
      connect_as-sent g.client default_username default_ip port now default_username-IsText
        (omega arith) once in
    (
      record g { client = c; logged_in = true; port = port },
      p,
      frames-unpressed g true typed ((press, now) ∷ []) out unpressed
          ∙ rw
              (render-pressed (record g { port = port_after typed g.port }) press now c out pressed
                same_name same_ip positive ran)
              refl,
      refl,
      named,
      at,
      sent,
      reads,
    )
