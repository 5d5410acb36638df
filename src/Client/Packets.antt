-- ===== src/Client/Packets.antt =====
-- source/client/client.cpp: the packets that the commands of a client build, against the server's
-- handler.
use piupiu.Common.{
  ℕ, ◌≤◌, ◌<◌, ◌^◌, ◌≡◌, refl, inl, inr, [], Bytes, length, Result, ok, IsText, Member, arith,
  from_c_array,
}
use piupiu.Messaging.{
  Packet, next_seqn, make_connect_command, make_disconnect_command, make_follow_command,
  make_send_command, make_request_user_info, make_packet, zero_payload,
}
use piupiu.Messaging.Payload.{command-Carries}
use piupiu.Messaging.Memory.{IsPacket}
use piupiu.Messaging.Sized.{built, built-IsPacket}
use piupiu.Sessions.{SocketAddress}
use piupiu.Server.Invariant.{max_handle, max_body}
use piupiu.Server.Reachable.{receive, IsPolite, packet}

-- A packet that a server handles from wherever it comes, and that fits the members of the struct
abbrev pub IsWelcome : Packet → Type 0
IsWelcome p = ((a : SocketAddress) → IsPolite (receive p a)) × IsPacket p

-- Such a packet, with the number of the command
abbrev pub IsHandled : ℕ → Packet → Type 0
IsHandled seqn p = (p.seqn ≡ seqn) × IsWelcome p

-- A builder that returns one, for the number `n`
abbrev pub Welcomes : ℕ → Result Packet → Type 0
Welcomes n r = (p : Packet) × (r ≡ ok p) × IsHandled (next_seqn n) p

-- The packets behind a number of 64 bits
module _ (n : ℕ) (now : ℕ) (text : Bytes) (wide : n < 2 ^ 64) (is_text : IsText text) where
  sized :
      (r : Result Packet) (p : Packet) → Member r (built n text text now) → r ≡ ok p → IsPacket p
  sized r p m made = built-IsPacket n text text now r p wide m made

  module _ (short : length text ≤ max_handle) where
    pub connect_packet : Welcomes n (make_connect_command n text now)
    connect_packet =
        let (p, made, type, seqn, len, reads) =
          (command-Carries n now text is_text (omega (arith, short))).0 in
        (
          p,
          made,
          (
            seqn,
            (
              λ a.
                  packet p a text reads (omega (arith, type)) (λ e. short)
                    (λ e. absurd (omega (arith, e, type))),
              sized _ p (inl refl) made,
            ),
          ),
        )

    pub disconnect_packet : Welcomes n (make_disconnect_command n text now)
    disconnect_packet =
        let (p, made, type, seqn, len, reads) =
          (command-Carries n now text is_text (omega (arith, short))).1 in
        (
          p,
          made,
          (
            seqn,
            (
              λ a.
                  packet p a text reads (omega (arith, type)) (λ e. short)
                    (λ e. absurd (omega (arith, e, type))),
              sized _ p (inr (inl refl)) made,
            ),
          ),
        )

    pub follow_packet : Welcomes n (make_follow_command n text now)
    follow_packet =
        let (p, made, type, seqn, len, reads) =
          (command-Carries n now text is_text (omega (arith, short))).2 in
        (
          p,
          made,
          (
            seqn,
            (
              λ a.
                  packet p a text reads (omega (arith, type)) (λ e. short)
                    (λ e. absurd (omega (arith, e, type))),
              sized _ p (inr (inr (inr (inr (inl refl))))) made,
            ),
          ),
        )

  pub send_packet : length text ≤ max_body → Welcomes n (make_send_command n text now)
  send_packet short =
      let (p, made, type, seqn, len, reads) =
        (command-Carries n now text is_text (omega (arith, short))).3 in
      (
        p,
        made,
        (
          seqn,
          (
            λ a.
                packet p a text reads (omega (arith, type)) (λ e. absurd (omega (arith, e, type)))
                  (λ e. short),
            sized _ p (inr (inr (inr (inr (inr (inl refl)))))) made,
          ),
        ),
      )

pub info_packet : (n now : ℕ) → n < 2 ^ 64 → Welcomes n (ok (make_request_user_info n now))
unfolding make_request_user_info make_packet zero_payload from_c_array
info_packet n now wide = (
  make_request_user_info n now,
  refl,
  (
    refl,
    (
      λ a.
          packet (make_request_user_info n now) a [] refl (omega arith)
            (λ e. absurd (omega (arith, e))) (λ e. absurd (omega (arith, e))),
      built-IsPacket n [] [] now _ (make_request_user_info n now) wide
          (inr (inr (inr (inr (inr (inr (inr (inr (inr (inl refl)))))))))) refl,
    ),
  ),
)

pub next_seqn_wide : (n : ℕ) → next_seqn n < 2 ^ 64
unfolding next_seqn
next_seqn_wide n = omega arith
