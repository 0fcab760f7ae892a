-- ===== src/Thread/Examples.antt =====
-- Status files read by src/fly_thread.c.
use libfly.Prelude.{ℕ, ◌≡◌, refl, some, List, [], ◌∷◌, arith, not, ◌&&◌, if◌then◌else◌}
use libfly.Thread.{Thread, clear_os_bits_mask, add_letter, state_letter, is_client_block}
use libfly.Thread.Status.{Label, status_text, state_letter-status_text}
use libfly.Thread.Blocked.{is_client_block-letter, sleeps, tracked}
use Prim.Native.Nat.{bit_and}

abbrev state_label : Label
state_label = record { l0 = b'S'; l1 = b't'; l2 = b'a'; l3 = b't'; l4 = b'e'; l5 = b':' }

abbrev name : List ℕ
name = 0x09 ∷ b'f' ∷ b'l' ∷ b'y' ∷ []

-- A process called `fly` that sleeps.
abbrev status : List ℕ
status = status_text name state_label (0x09 ∷ []) (b'S' ∷ 0x20 ∷ 0x0a ∷ [])

status_letter : state_letter status ≡ some b'S'
status_letter =
    state_letter-status_text name state_label (0x09 ∷ []) b'S' (0x20 ∷ 0x0a ∷ []) (omega arith)
      (refl, tt) refl

-- A thread whose client function runs.
abbrev at_work : Thread
at_work = record { func = 1; param = 2; state = 2; fd = some 3 }

is_client_block-letter_example :
    (t' : Thread) × (is_client_block (some status) at_work
      ≡ some (if sleeps b'S' && not (tracked at_work.state) then 1 else 0, t'))
    × (t'.state ≡ add_letter (bit_and 2 clear_os_bits_mask) b'S')
is_client_block-letter_example =
    is_client_block-letter status b'S' at_work status_letter (omega arith)
