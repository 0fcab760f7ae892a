-- ===== src/Thread/Blocked.antt =====
-- When `fly_thread_is_client_block` of src/fly_thread.c reports a thread as blocked.
use Prim.Native.Nat.{bit_and, bit_or}
use libfly.Prelude.{
  ℕ, zero, suc, ◌<◌, ◌≡◌, refl, Bool, true, false, ◌&&◌, ◌||◌, not, none, some, List, arith, ◌==◌,
  if◌then◌else◌,
}
use libfly.Thread.{
  Thread, running, sleep, client_isleep, client_usleep, trapped, clear_os_bits_mask, add_letter,
  state_letter, get_thread_state, get_state, is_blocked, is_client_block,
}

-- The test succeeds on the first `count` states.
table_of : (test : ℕ → Bool) (count : ℕ) → Bool
table_of test zero = true
table_of test (suc count) = if test count then table_of test count else false

read_off :
    (test : ℕ → Bool) (count : ℕ) {state : ℕ}
    → state < count
    → table_of test count ≡ true
    → test state ≡ true
unfolding table_of
read_off test zero lt all = absurd (omega arith)
read_off test (suc count) {state} lt all = ground (arith, read_off test count {state = state})

-- The thread sleeps in a function of the library.
abbrev pub tracked : ℕ → Bool
tracked state = not (bit_and state sleep == 0)

-- What the test gives for a letter that adds `bits`, as a table over all states.
abbrev reports : (bits : ℕ) (blocked : Bool) → ℕ → Bool
reports bits blocked state =
    is_blocked (bit_or (bit_and state clear_os_bits_mask) bits)
    == (if blocked && not (tracked state) then 1 else 0)

table :
    (bits : ℕ) (blocked : Bool)
    → table_of (reports bits blocked) 128 ≡ true
    → (state : ℕ) → state < 128
    → is_blocked (bit_or (bit_and state clear_os_bits_mask) bits)
      ≡ (if blocked && not (tracked state) then 1 else 0)
table bits blocked all state lt = let h = read_off (reports bits blocked) 128 lt all in ground arith

usleep_table : table_of (reports client_usleep true) 128 ≡ true
unfolding table_of is_blocked
usleep_table = refl

isleep_table : table_of (reports client_isleep true) 128 ≡ true
unfolding table_of is_blocked
isleep_table = refl

running_table : table_of (reports running false) 128 ≡ true
unfolding table_of is_blocked
running_table = refl

trapped_table : table_of (reports trapped false) 128 ≡ true
unfolding table_of is_blocked
trapped_table = refl

other_table : table_of (λ state. is_blocked (bit_and state clear_os_bits_mask) == 0) 128 ≡ true
unfolding table_of is_blocked
other_table = refl

-- The two letters of a sleep that the operating system reports.
abbrev pub sleeps : ℕ → Bool
sleeps letter = letter == b'D' || letter == b'S'

is_blocked-add_letter :
    (state letter : ℕ)
    → state < 128
    → is_blocked (add_letter (bit_and state clear_os_bits_mask) letter)
      ≡ (if sleeps letter && not (tracked state) then 1 else 0)
unfolding add_letter
is_blocked-add_letter state letter lt = ground (
  arith,
  table client_usleep true usleep_table state lt,
  table client_isleep true isleep_table state lt,
  table running false running_table state lt,
  table trapped false trapped_table state lt,
  read_off (λ (s : ℕ). is_blocked (bit_and s clear_os_bits_mask) == 0) 128 lt other_table,
)

-- A status buffer with a letter, and a thread with any combination of the state bits: the call returns, and the
-- thread is reported as blocked exactly where the letter is `D` or `S` and the thread is not known to
-- sleep in a function of the library. Bits that an earlier letter left behind do not count.
pub is_client_block-letter :
    (buff : List ℕ) (letter : ℕ) (t : Thread)
    → state_letter buff ≡ some letter
    → t.state < 128
    → (t' : Thread) × (is_client_block (some buff) t
        ≡ some (if sleeps letter && not (tracked t.state) then 1 else 0, t'))
      × (t'.state ≡ add_letter (bit_and t.state clear_os_bits_mask) letter)
unfolding is_client_block get_state get_thread_state
is_client_block-letter buff letter t read lt = (
  record t { state = add_letter (bit_and t.state clear_os_bits_mask) letter },
  rw (read, is_blocked-add_letter t.state letter lt),
  refl,
)

-- Where the status file cannot be read, no thread is reported as blocked.
is_client_block-unread :
    (t : Thread) → t.state < 128 → (t' : Thread) × (is_client_block none t ≡ some (0, t'))
unfolding is_client_block get_state get_thread_state
is_client_block-unread t lt = (
  record t { state = bit_and t.state clear_os_bits_mask },
  ground (
    arith,
    read_off (λ (s : ℕ). is_blocked (bit_and s clear_os_bits_mask) == 0) 128 lt other_table,
  ),
)
