-- ===== src/Gui/Session.antt =====
-- source/client/gui/gui.cpp: a whole session of the GUI, against the server's handler.
use piupiu.Common.{
  ℕ, ◌≤◌, ◌≡◌, ◌≢◌, refl, inl, inr, Bool, true, false, ◌&&◌, List, [], ◌∷◌, ◌++◌, Bytes, length,
  ltb, leb, ℤ, ok, All, All-append, IsText, arith, Bool-cases, if-true, if-false, ◌∙◌,
}
use piupiu.Messaging.{next_seqn}
use piupiu.Client.{Client, unset, closed, opened, post, connect, connect_as, send_message_to_server}
use piupiu.Client.Packets.{IsWelcome, connect_packet, send_packet, next_seqn_wide}
use piupiu.Client.Life.Commands.{send_kept}
use piupiu.Gui.{
  Ui, Gui, is_positive, default_username, default_ip, render_feed, render_login, render, frames,
}

-- What Dear ImGui leaves in the buffers of 128 bytes and of 16 KiB: C strings that fit
pub record IsUi (ui : Ui) : Type 0 where
  pub username : IsText (ui.input_username default_username)
  pub username_fits : length (ui.input_username default_username) ≤ 127
  pub texts : (text : Bytes) → IsText text → IsText (ui.input_text text)

pub record IsGui (g : Gui) : Type 0 where
  pub fresh : g.logged_in ≡ false → g.client.has_threads ≡ false
  pub ready : g.logged_in ≡ true → g.client.descriptor ≢ unset
  pub welcome : All IsWelcome g.client.sent
  pub written : IsText g.text

-- What `Post` does on a client that has connected
post_kept :
    (c : Client) (text : Bytes) (now : ℕ)
    → c.descriptor ≢ unset
    → All IsWelcome c.sent
    → IsText text
    → (c' : Client) × (refused : ℕ) × (post c text now ≡ ok (c', refused))
      × (c'.descriptor ≢ unset)
      × All IsWelcome c'.sent
unfolding post
post_kept c text now ready welcome is_text = elim (Bool-cases (leb (length text) 128)) [
  | inl small ↦
      let n = next_seqn c.last_sent_seqn in
      let (p, made, (seqn, good)) =
        send_packet n now text (next_seqn_wide _) is_text (ground (arith, small)) in
      let (l, sent, all) = send_kept (record c { last_sent_seqn = n }) p ready welcome good in
      (record c { last_sent_seqn = n; sent = l }, 0, rw (small, made, sent) refl, ready, all)
  | inr large ↦ (c, 1, rw large refl, ready, welcome)
]

-- What `Connect` does on a client that has not
connect_kept :
    (c : Client) (handle address : Bytes) (port : ℤ) (can_open : Bool) (now : ℕ)
    → c.has_threads ≡ false
    → All IsWelcome c.sent
    → IsText handle
    → length handle ≤ 127
    → (c' : Client) × (connect_as c handle address port can_open now ≡ ok c')
      × (c'.descriptor ≢ unset)
      × All IsWelcome c'.sent
unfolding connect_as connect send_message_to_server
connect_kept c handle address port true now once welcome is_text short =
    let n = next_seqn c.last_sent_seqn in
    let (p, made, (seqn, good)) =
      connect_packet n now handle (next_seqn_wide _) is_text (omega (arith, short)) in
    (
      record c {
        profile_handle = handle;
        server_address = address;
        server_port = port;
        descriptor = opened;
        last_sent_seqn = n;
        has_threads = true;
        sent = c.sent ++ p ∷ [];
      },
      rw (made, once) refl,
      λ e. cc,
      All-append IsWelcome c.sent (p ∷ []) welcome (good, tt),
    )
connect_kept c handle address port false now once welcome is_text short = (
  record c {
    profile_handle = handle;
    server_address = address;
    server_port = port;
    descriptor = closed;
  },
  refl,
  λ e. cc,
  welcome,
)

render_feed-IsGui :
    (g : Gui) (ui : Ui) (now : ℕ)
    → IsGui g
    → IsUi ui
    → g.logged_in ≡ true
    → (g' : Gui) × (render_feed g ui now ≡ ok g') × IsGui g'
unfolding render_feed
render_feed-IsGui g ui now v u inside = elim (Bool-cases ui.button) [
  | inl e ↦
      let (c', refused, ran, ready, welcome) =
        post_kept g.client (ui.input_text g.text) now (v.ready inside) v.welcome
          (u.texts g.text v.written) in
      (
        record g { client = c'; text = [] },
        rw (e, ran) refl,
        record {
          fresh = λ out. cc (out, inside);
          ready = λ h. ready;
          welcome = welcome;
          written = tt;
        },
      )
  | inr e ↦ (
    record g { text = ui.input_text g.text },
    rw e refl,
    record {
      fresh = v.fresh;
      ready = v.ready;
      welcome = v.welcome;
      written = u.texts g.text v.written;
    },
  )
]

render_login-IsGui :
    (g : Gui) (ui : Ui) (can_open : Bool) (now : ℕ)
    → IsGui g
    → IsUi ui
    → g.logged_in ≡ false
    → (g' : Gui) × (render_login g ui can_open now ≡ ok g') × IsGui g'
unfolding render_login
render_login-IsGui g ui can_open now v u outside =
    let username = ui.input_username default_username in
    let ip = ui.input_ip default_ip in
    let port = ui.input_port g.port in
    let test = ui.button && (ltb 4 (length username) && (is_positive port && ltb 4 (length ip))) in
    elim (Bool-cases test) [
      | inl e ↦
          let (c', ran, ready, welcome) =
            connect_kept g.client username ip port can_open now (v.fresh outside) v.welcome
              u.username u.username_fits in
          (
            record g { client = c'; logged_in = true; port = port },
            rw (e, ran) refl,
            record {
              fresh = λ out. cc;
              ready = λ h. ready;
              welcome = welcome;
              written = v.written;
            },
          )
      | inr e ↦ (
        record g { port = port },
        rw e refl,
        record { fresh = v.fresh; ready = v.ready; welcome = v.welcome; written = v.written },
      )
    ]

render-IsGui :
    (g : Gui) (ui : Ui) (can_open : Bool) (now : ℕ)
    → IsGui g
    → IsUi ui
    → (g' : Gui) × (render g ui can_open now ≡ ok g') × IsGui g'
unfolding render
render-IsGui g ui can_open now v u = elim (Bool-cases g.logged_in) [
  | inl e ↦
      let (g', ran, kept) = render_feed-IsGui g ui now v u e in
      (g', if-true g.logged_in _ _ e ∙ ran, kept)
  | inr e ↦
      let (g', ran, kept) = render_login-IsGui g ui can_open now v u e in
      (g', if-false g.logged_in _ _ e ∙ ran, kept)
]

-- A session of the GUI, from a client that has not connected on, never fails, whatever is typed and
-- pressed in its frames and whether or not socket() opens, and all that the client sends in it are
-- packets that every server under its invariant handles.
pub frames_total :
    (g : Gui) (can_open : Bool) (fs : List (Ui × ℕ))
    → IsGui g
    → All (λ f. IsUi f.0) fs
    → (g' : Gui) × (frames g can_open fs ≡ ok g') × IsGui g'
unfolding frames
frames_total g can_open [] v us = (g, refl, v)
frames_total g can_open ((ui, now) ∷ fs) v us =
    let (g1, ran, kept) = render-IsGui g ui can_open now v us.0 in
    let (g2, later, held) = frames_total g1 can_open fs kept us.1 in (g2, rw ran later, held)
