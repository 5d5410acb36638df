-- ===== src/Console/Session.antt =====
-- source/client/console/console.cpp: a whole session at the keyboard.
use piupiu.Common.{
  ℕ, ◌+◌, ◌-◌, ◌%◌, ◌≤◌, ◌≡◌, ◌≢◌, refl, sym, ◌∙◌, inl, inr, Bool, false, ◌||◌, List, [], ◌∷◌, ◌++◌,
  Bytes, length, ltb, ◌==◌, if◌then◌else◌, ok, All, All-append, IsText, arith, Bool-cases,
  length-append,
}
use piupiu.Client.{Client}
use piupiu.Client.Packets.{IsWelcome}
use piupiu.Client.Protocol.{Issued, one, none_sent}
use piupiu.Server.Invariant.{max_handle}
use piupiu.Console.Interface.{
  ConsoleInterface, stop, erase_last, enter, Keys, get_user_input, main_loop,
}
use piupiu.Console.Input.{
  Inert, InputOutcome-Inert, IsConsole, InputOutcome, followed, wrong_arguments, helped, exited,
  ignored, posted, handle_user_input_lem,
}

abbrev pub erases : Keys → ℕ → Bool
erases k ch = ch == k.key_backspace || ch == 127

abbrev pub enters : Keys → ℕ → Bool
enters k ch = ch == k.key_enter || (ch == b'\n' || ch == b'\r')

abbrev pub moves : Keys → ℕ → Bool
moves k ch = ch == 3 || (ch == k.key_up || ch == k.key_down)

-- The length of the line after a key
unfoldable pub next_length : Keys → ℕ → ℕ → ℕ
next_length k ch n =
    if erases k ch then n - 1 else if enters k ch then 0 else if moves k ch then n else n + 1

-- A key that edits, ends or leaves the line, or puts a byte other than NUL behind it
abbrev pub IsTyped : Keys → ℕ → Type 0
IsTyped k ch = (erases k ch || (enters k ch || moves k ch)) ≡ false → ch % 256 ≢ 0

-- Keys that never make a line of more than 380 bytes.
abbrev pub Fits : Keys → ℕ → List (ℕ × ℕ) → Type 0
Fits k n [] = Unit
Fits k n ((ch, now) ∷ keys) =
    IsTyped k ch × (next_length k ch n ≤ max_handle) × Fits k (next_length k ch n) keys

erase_last-IsText : (s : Bytes) → IsText s → IsText (erase_last s)
unfolding erase_last
erase_last-IsText [] h = tt
erase_last-IsText (c ∷ []) h = tt
erase_last-IsText (c ∷ d ∷ s) h = (h.0, erase_last-IsText (d ∷ s) h.1)

length-erase_last : (s : Bytes) → length (erase_last s) ≡ length s - 1
unfolding erase_last
length-erase_last [] = omega arith
length-erase_last (c ∷ []) = omega arith
length-erase_last (c ∷ d ∷ s) = omega (arith, length-erase_last (d ∷ s))

-- What a line adds to what was sent is welcome, and the line is still there.
pub Issued-IsWelcome : (c c' : Client) → Issued c c' → All IsWelcome c.sent → All IsWelcome c'.sent
Issued-IsWelcome c c' (one p handled sent number) h =
    rw sent (All-append IsWelcome c.sent (p ∷ []) h (handled.1, tt))
Issued-IsWelcome c c' (none_sent e) h = rw e h

outcome-IsWelcome :
    (c : ConsoleInterface) (now : ℕ) (c' : ConsoleInterface)
    → InputOutcome c now c'
    → All IsWelcome c.client.sent
    → All IsWelcome c'.client.sent
outcome-IsWelcome c now c' (followed name client e ran issued q) h =
    rw q (Issued-IsWelcome c.client client issued h)
outcome-IsWelcome c now c' (wrong_arguments arguments e n q) h = rw q h
outcome-IsWelcome c now c' (helped arguments e q) h = rw q h
outcome-IsWelcome c now c' (exited arguments e q) h = rw q h
outcome-IsWelcome c now c' (ignored command arguments e f g l q) h = rw q h
outcome-IsWelcome c now c' (posted client e ran issued q) h =
    rw q (Issued-IsWelcome c.client client issued h)

-- A key changes the line alone.
line-IsConsole :
    (c : ConsoleInterface) (line : Bytes)
    → IsConsole c
    → IsText line
    → length line ≤ max_handle
    → IsConsole (record c { user_input = line })
line-IsConsole c line v t short = record {
  typed = t;
  short = short;
  cursor = v.cursor;
  ready = v.ready;
  handle = v.handle;
  handle_short = v.handle_short;
}

-- What a key leaves.
pub record Pressed (k : Keys) (c : ConsoleInterface) (ch : ℕ) (c' : ConsoleInterface) : Type 0 where
  pub valid : IsConsole c'
  pub line : length c'.user_input ≡ next_length k ch (length c.user_input)
  pub welcome : All IsWelcome c.client.sent → All IsWelcome c'.client.sent
  pub inert : Inert c.client c'.client

enter_lem :
    (k : Keys) (c : ConsoleInterface) (ch now : ℕ)
    → IsConsole c
    → next_length k ch (length c.user_input) ≡ 0
    → (c' : ConsoleInterface) × (enter c now ≡ ok c') × Pressed k c ch c'
unfolding enter
enter_lem k c ch now v empty =
    let (after, ran, w, outcome) = handle_user_input_lem c now v in
    (
      record after { user_input = [] },
      rw ran refl,
      record {
        valid = line-IsConsole after [] w tt (omega arith);
        line = sym empty;
        welcome = outcome-IsWelcome c now after outcome;
        inert = InputOutcome-Inert c now after outcome;
      },
    )

-- Another cursor, or another answer to whether the loop runs
cursor-IsConsole :
    (c : ConsoleInterface) (running : Bool) (cursor : ℕ)
    → IsConsole c
    → cursor ≤ length c.messages
    → IsConsole (record c { running = running; message_cursor = cursor })
cursor-IsConsole c running cursor v h = record {
  typed = v.typed;
  short = v.short;
  cursor = h;
  ready = v.ready;
  handle = v.handle;
  handle_short = v.handle_short;
}

cursor-Pressed :
    (k : Keys) (c : ConsoleInterface) (ch : ℕ) (running : Bool) (cursor : ℕ)
    → IsConsole c
    → cursor ≤ length c.messages
    → next_length k ch (length c.user_input) ≡ length c.user_input
    → Pressed k c ch (record c { running = running; message_cursor = cursor })
cursor-Pressed k c ch running cursor v h same_line = record {
  valid = cursor-IsConsole c running cursor v h;
  line = sym same_line;
  welcome = λ q. q;
  inert = record { packet_list = refl; has_handler = refl };
}

-- ctrl-c, the arrows, and a byte of the line
other_key_lem :
    (k : Keys) (c : ConsoleInterface) (ch : ℕ)
    → IsConsole c
    → erases k ch ≡ false
    → enters k ch ≡ false
    → (moves k ch ≡ false → ch % 256 ≢ 0)
    → next_length k ch (length c.user_input) ≤ max_handle
    → (c' : ConsoleInterface) × ((if ch == 3
          then ok (stop c)
          else if ch == k.key_up
          then ok (
              if ltb c.message_cursor (length c.messages)
              then record c { message_cursor = c.message_cursor + 1 }
              else c)
          else if ch == k.key_down
          then ok (
              if ltb 0 c.message_cursor
              then record c { message_cursor = c.message_cursor - 1 }
              else c)
          else ok (record c { user_input = c.user_input ++ (ch % 256) ∷ [] }))
        ≡ ok c')
      × Pressed k c ch c'
unfolding next_length stop
other_key_lem k c ch v e f some fits = elim (Bool-cases (ch == 3)) [
  | inl g ↦
      (_, rw g refl, cursor-Pressed k c ch false c.message_cursor v v.cursor (rw (e, f, g) refl))
  | inr g ↦ elim (Bool-cases (ch == k.key_up)) [
    | inl h ↦ elim (Bool-cases (ltb c.message_cursor (length c.messages))) [
      | inl below ↦ (
        _,
        rw (g, h, below) refl,
        cursor-Pressed k c ch c.running (c.message_cursor + 1) v (ground (arith, below))
            (rw (e, f, g, h) refl),
      )
      | inr above ↦ (
        c,
        rw (g, h, above) refl,
        cursor-Pressed k c ch c.running c.message_cursor v v.cursor (rw (e, f, g, h) refl),
      )
    ]
    | inr h ↦ elim (Bool-cases (ch == k.key_down)) [
      | inl i ↦ elim (Bool-cases (ltb 0 c.message_cursor)) [
        | inl some_cursor ↦ (
          _,
          rw (g, h, i, some_cursor) refl,
          cursor-Pressed k c ch c.running (c.message_cursor - 1) v (omega (arith, v.cursor))
              (rw (e, f, g, h, i) refl),
        )
        | inr bottom ↦ (
          c,
          rw (g, h, i, bottom) refl,
          cursor-Pressed k c ch c.running c.message_cursor v v.cursor (rw (e, f, g, h, i) refl),
        )
      ]
      | inr i ↦
          let typed : ch % 256 ≢ 0 = some (rw (g, h, i) refl) in
          let longer : next_length k ch (length c.user_input) ≡ length c.user_input + 1 =
            rw (e, f, g, h, i) refl in
          let line = c.user_input ++ (ch % 256) ∷ [] in
          let grown : length line ≡ length c.user_input + 1 =
            length-append c.user_input ((ch % 256) ∷ []) in
          (
            record c { user_input = line },
            rw (g, h, i) refl,
            record {
              valid =
                  line-IsConsole c line v
                    (All-append (λ b. b ≢ 0) c.user_input ((ch % 256) ∷ []) v.typed (typed, tt))
                    (omega (arith, grown, longer, fits));
              line = grown ∙ sym longer;
              welcome = λ q. q;
              inert = record { packet_list = refl; has_handler = refl };
            },
          )
    ]
  ]
]

pub get_user_input_lem :
    (k : Keys) (c : ConsoleInterface) (ch now : ℕ)
    → IsConsole c
    → IsTyped k ch
    → next_length k ch (length c.user_input) ≤ max_handle
    → (c' : ConsoleInterface) × (get_user_input k c ch now ≡ ok c') × Pressed k c ch c'
unfolding get_user_input next_length stop
get_user_input_lem k c ch now v typed fits = elim (Bool-cases (erases k ch)) [
  | inl e ↦ (
    record c { user_input = erase_last c.user_input },
    rw e refl,
    record {
      valid =
          line-IsConsole c _ v (erase_last-IsText c.user_input v.typed)
            (omega (arith, v.short, length-erase_last c.user_input));
      line = rw e (length-erase_last c.user_input);
      welcome = λ h. h;
      inert = record { packet_list = refl; has_handler = refl };
    },
  )
  | inr e ↦ elim (Bool-cases (enters k ch)) [
    | inl f ↦ rw (e, f) (enter_lem k c ch now v (rw (e, f) refl))
    | inr f ↦ rw (e, f) (other_key_lem k c ch v e f (λ m. typed (rw (e, f, m) refl)) fits)
  ]
]

-- A session of keys that never make a line of more than 380 bytes, and type no NUL, never fails: what
-- the client sends in it are packets that every server under its invariant handles, and at the end the
-- cursor still lies within the messages.
pub main_loop_total :
    (k : Keys) (keys : List (ℕ × ℕ)) (c : ConsoleInterface)
    → IsConsole c
    → Fits k (length c.user_input) keys
    → All IsWelcome c.client.sent
    → (c' : ConsoleInterface) × (main_loop k c keys ≡ ok c')
      × IsConsole c'
      × All IsWelcome c'.client.sent
unfolding main_loop
main_loop_total k [] c v fits h = (c, refl, v, h)
main_loop_total k ((ch, now) ∷ keys) c v fits h = elim (Bool-cases c.running) [
  | inl on ↦
      let (after, ran, p) = get_user_input_lem k c ch now v fits.0 fits.1 in
      let (final, later, w, sent) =
        main_loop_total k keys after p.valid (rw p.line fits.2) (p.welcome h) in
      (final, ground (arith, on, ran, later), w, sent)
  | inr off ↦ (c, ground (arith, off), v, h)
]
