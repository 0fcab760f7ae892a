-- ===== src/Thread/Status.antt =====
-- Where `get_thread_state` of src/fly_thread.c looks for the letter of the state.
use libfly.Prelude.{
  ℕ, ◌≡◌, refl, ◌≢◌, Bool, true, false, ◌||◌, none, some, List, [], ◌∷◌, ◌++◌, arith, ◌==◌,
}
use libfly.Thread.{find_newline, skip_blanks, state_letter}

abbrev pub is_blank : ℕ → Bool
is_blank c = c == 0x09 || c == 0x20

-- A line has no line feed.
abbrev pub IsLine : List ℕ → Type 0
IsLine [] = Unit
IsLine (c ∷ cs) = (c ≢ 0x0a) × IsLine cs

abbrev pub AllBlank : List ℕ → Type 0
AllBlank [] = Unit
AllBlank (c ∷ cs) = (is_blank c ≡ true) × AllBlank cs

-- Six bytes before a value: `State:`, or another label.
pub record Label : Type 0 where
  pub l0 : ℕ
  pub l1 : ℕ
  pub l2 : ℕ
  pub l3 : ℕ
  pub l4 : ℕ
  pub l5 : ℕ

-- A status file whose second line has such a label: `Name:`, the name, the label, the value.
abbrev pub status_text : (name : List ℕ) → Label → (blanks value : List ℕ) → List ℕ
status_text name l blanks value =
    b'N' ∷ b'a' ∷ b'm' ∷ b'e' ∷ b':' ∷ name
    ++ (0x0a ∷ l.l0 ∷ l.l1 ∷ l.l2 ∷ l.l3 ∷ l.l4 ∷ l.l5 ∷ (blanks ++ value))

find_newline-line :
    (line rest : List ℕ) → IsLine line → find_newline (line ++ 0x0a ∷ rest) ≡ some (0x0a ∷ rest)
unfolding find_newline
find_newline-line [] rest h = refl
find_newline-line (c ∷ cs) rest h = ground (arith, find_newline-line cs rest h.1)

skip_blanks-blanks :
    (blanks : List ℕ) (letter : ℕ) (rest : List ℕ)
    → AllBlank blanks
    → is_blank letter ≡ false
    → skip_blanks (blanks ++ letter ∷ rest) ≡ some letter
unfolding skip_blanks
skip_blanks-blanks [] letter rest h e = rw e
skip_blanks-blanks (c ∷ cs) letter rest h e = rw h.0 (skip_blanks-blanks cs letter rest h.1 e)

-- In a status file that fits the buffer, whose first line is `Name:` and a name without a line feed
-- and whose second line is a label of six bytes, blanks and a value that starts with no blank, the
-- letter that is read is the first byte of that value.
pub state_letter-status_text :
    (name : List ℕ) (l : Label) (blanks : List ℕ) (letter : ℕ) (rest : List ℕ)
    → IsLine name
    → AllBlank blanks
    → is_blank letter ≡ false
    → state_letter (status_text name l blanks (letter ∷ rest)) ≡ some letter
unfolding state_letter find_newline
state_letter-status_text name l blanks letter rest line blank e =
    rw
      (find_newline-line name (l.l0 ∷ l.l1 ∷ l.l2 ∷ l.l3 ∷ l.l4 ∷ l.l5 ∷ (blanks ++ letter ∷ rest))
        line)
      (skip_blanks-blanks blanks letter rest blank e)

find_newline-none : (line : List ℕ) → IsLine line → find_newline line ≡ none
unfolding find_newline
find_newline-none [] h = refl
find_newline-none (c ∷ cs) h = ground (arith, find_newline-none cs h.1)

-- Where a buffer of five bytes or more holds no line feed behind its first five bytes, the reader
-- runs behind the buffer.
state_letter-no_newline :
    (a b c d e : ℕ) (line : List ℕ) → IsLine line → state_letter (a ∷ b ∷ c ∷ d ∷ e ∷ line) ≡ none
unfolding state_letter find_newline
state_letter-no_newline a b c d e line h = rw (find_newline-none line h)
