-- ===== src/Command/Settled.antt =====
-- What a round of `Exchange` leaves of the cursor (proto/rl_sdk/include/rl_sdk/session.h).
use rl_aiserver.Common.{
  ◌≡◌, ◌⊎◌, inl, inr, Bool, true, false, ◌&&◌, Option, none, some, arith, add_u64, if◌then◌else◌,
  if_elim,
}
use rl_aiserver.Common.Int.{ℤ}
use rl_aiserver.Command.Types.{CommandReply}
use rl_aiserver.Command.Client.{
  Cursor, fill_command, accept_command_reply, command_accepted, is_rejection, settle,
  CommandOutcome, applied, unknown, is_positive, is_null, is_command_wait, is_conclusive_rejected,
}
use rl_aiserver.Command.Client

-- What a round leaves: the cursor moved on by an accepted reply, or as it was.
pub data Settled (c : Cursor) (r : CommandReply) : Cursor × Option CommandOutcome → Type 0 where
  accepts :
      command_accepted r ≡ true
      → Settled c r
          (record c { phase = r.phase; next_sequence = add_u64 c.next_sequence 1 }, some applied)
  pauses : Settled c r (c, none)
  concludes : is_rejection r.result ≡ true → Settled c r (c, some Client.rejected)
  gives_up : Settled c r (c, some unknown)

abbrev moved : Cursor → CommandReply → Cursor
moved c r = record c { phase = r.phase; next_sequence = add_u64 c.next_sequence 1 }

accept_cases :
    (c : Cursor) (r : CommandReply)
    → ((accept_command_reply c r ≡ (moved c r, true)) × (command_accepted r ≡ true))
      ⊎ (accept_command_reply c r ≡ (c, false))
unfolding accept_command_reply
accept_cases c r = ground arith

concluded :
    (c : Cursor) (r : CommandReply)
    → Settled c r (c, some (if is_conclusive_rejected c r then Client.rejected else unknown))
unfolding is_conclusive_rejected
concluded c r =
    if_elim (λ o. Settled c r (c, some o)) (is_conclusive_rejected c r) Client.rejected unknown
      (λ e. concludes (ground (arith, e))) (λ e. gives_up)

pub settle-Settled :
    (c : Cursor) (r : CommandReply) (delay : ℤ) (valid : Bool)
    → Settled c r (settle c r delay valid)
unfolding settle
settle-Settled c r delay valid =
    if_elim (Settled c r) (is_positive delay && is_command_wait c r) _ _ (λ e. pauses)
      (λ e. elim (accept_cases c r) [
        | inl (a, f) ↦ rw a (
            if_elim (Settled c r) (is_null delay && (valid && true)) _ _ (λ _. accepts f)
              (λ _. concluded c r))
        | inr a ↦ rw a (
            if_elim (Settled c r) (is_null delay && (valid && false)) _ _
              (λ h. absurd (ground (arith, h))) (λ _. concluded c r))
      ])
