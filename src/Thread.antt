-- ===== src/Thread.antt =====
-- src/fly_thread.h and src/fly_thread.c: a thread, its state bits, and the reader of its status file.
-- The calls of pthread and of the file system enter as arguments: what they answer. A C `int` that is
-- returned is its bits, and 0 is success.
pub mod Status
pub mod Blocked
mod Examples
use Prim.Native.Nat.{bit_and, bit_or}
use libfly.Prelude.{
  ℕ, zero, suc, ◌≡◌, Bool, not, ◌&&◌, ◌||◌, Option, none, some, List, [], ◌∷◌, ◌==◌, if◌then◌else◌,
  drop,
}
use libfly.Prelude.Options.{◌>>=◌}
use libfly.Errors.{success, no_resources, bad_attribute, code}
use libfly.Malloc.{Memory, malloc, free}

-- `enum fly_thread_state`
abbrev pub idle : ℕ
idle = 0x01

abbrev pub running : ℕ
running = 0x02

abbrev pub sleep : ℕ
sleep = 0x04

abbrev pub client_isleep : ℕ
client_isleep = 0x10

abbrev pub client_usleep : ℕ
client_usleep = 0x20

abbrev pub trapped : ℕ
trapped = 0x40

-- FLY_THREAD_CLEAR_OS_BITS_MASK
abbrev pub clear_os_bits_mask : ℕ
clear_os_bits_mask = 7

-- `struct fly_thread` less the pthread handle and the attributes, which are a block of memory. `none`
-- is FLY_INVALID_FD.
pub record Thread : Type 0 where
  pub func : ℕ
  pub param : ℕ
  pub state : ℕ
  pub fd : Option ℕ

-- `fly_thread_init`; `attr_ok` says whether `pthread_attr_init` succeeds.
unfoldable pub thread_init :
    (attr_ok : Bool) (func param : ℕ) → Thread → Memory → ℕ × Thread × Memory
unfolding malloc free
thread_init attr_ok func param t m =
    let (got, m') = malloc m in
    if got
    then (if attr_ok
        then (code success, record t { func = func; param = param; state = idle; fd = none }, m')
        else (code bad_attribute, t, free m'))
    else (code no_resources, t, m')

-- `fly_thread_uninit`
unfoldable pub thread_uninit : Memory → Memory
unfolding free
thread_uninit m = free m

-- `fly_thread_wait`. `none`: `pthread_join` does not return, because the thread never ends, or there is
-- no thread, which is undefined.
unfoldable pub thread_wait : (ends : Bool) → Option ℕ
thread_wait ends = if ends then some (code success) else none

-- The start of `fly_thread_wrap_func`, in the new thread; `fd` is what `open` returns.
unfoldable pub thread_begin : (fd : Option ℕ) → Thread → Thread
thread_begin fd t = record t { state = running; fd = fd }

-- The loop over the first line of the status file: the rest of the buffer from the first line feed
-- on. `none`: the loop reads behind the buffer.
unfoldable pub find_newline : List ℕ → Option (List ℕ)
find_newline [] = none
find_newline (c ∷ cs) = if c == 0x0a then some (c ∷ cs) else find_newline cs

-- `while ((buff[i] == '\t') || (buff[i] == ' ')) i++;`, and the byte behind it.
unfoldable pub skip_blanks : List ℕ → Option ℕ
skip_blanks [] = none
skip_blanks (c ∷ cs) = if c == 0x09 || c == 0x20 then skip_blanks cs else some c

-- The `switch`: the bits that a letter adds.
unfoldable pub add_letter : (ret letter : ℕ) → ℕ
add_letter ret letter =
    if letter == b'D'
    then bit_or ret client_usleep
    else if letter == b'R'
    then bit_or ret running
    else if letter == b'S'
    then bit_or ret client_isleep
    else if letter == b'T'
    then bit_or ret trapped
    else ret

-- The letter of the state, in a buffer that `read` has filled.
unfoldable pub state_letter : (buff : List ℕ) → Option ℕ
state_letter buff = do line ← find_newline (drop 5 buff); skip_blanks (drop 7 line)

-- `get_thread_state`. `read` is `none` where `read` returns -1, and else the buffer: the bytes that
-- were read, and behind them whatever the stack held, FLY_THREAD_DEFAULT_READ_LEN bytes in all.
unfoldable pub get_thread_state : (read : Option (List ℕ)) (expected_state : ℕ) → Option ℕ
get_thread_state none expected_state = some expected_state
get_thread_state (some buff) expected_state = do
  letter ← state_letter buff
  some (add_letter expected_state letter)

-- `fly_thread_get_state`
unfoldable pub get_state : (read : Option (List ℕ)) → Thread → Option (ℕ × Thread)
get_state read t = do
  state ← get_thread_state read (bit_and t.state clear_os_bits_mask)
  some (state, record t { state = state })

-- The test of `fly_thread_is_client_block` on a state.
unfoldable pub is_blocked : ℕ → ℕ
is_blocked state =
    if not (bit_and state client_isleep == 0) || not (bit_and state client_usleep == 0)
    then (if bit_and state sleep == 0 then 1 else 0)
    else 0

-- `fly_thread_is_client_block`
unfoldable pub is_client_block : (read : Option (List ℕ)) → Thread → Option (ℕ × Thread)
is_client_block read t = do (state, t') ← get_state read t; some (is_blocked state, t')

-- `fly_sem_wait` of src/fly_sem.h, `fly_mrswlock_rlock` and `fly_mrswlock_wlock` of
-- src/fly_mrswlock.h set the state before they may sleep, and again behind that.
unfoldable pub before_sleep : Thread → Thread
before_sleep t = record t { state = sleep }

unfoldable pub after_sleep : Thread → Thread
after_sleep t = record t { state = running }
