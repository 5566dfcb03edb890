-- ===== src/Printer/Commands.antt =====
-- hegel-c/src/native/printer.rs: the errors of the printer, the commands that it records, and its slots. A
-- string is the list of its characters' codes, and its width the length of that list.
use hegel_rust.Base.{ℕ, Bool, false, leb, ◌==◌, ◌&&◌, ◌||◌, if◌then◌else◌, List, [], ◌∷◌, replicate}
use hegel_rust.Base.Int.{ℤ, pos_part}

pub data PrinterError : Type 0 where
  dead_slot : PrinterError
  unbalanced_group : PrinterError
  no_speculation : PrinterError
  unresolved_deferred : PrinterError
  nothing_to_resolve : PrinterError

pub data Target : Type 0 where
  main : Target
  slot : ℕ → Target

pub data Cmd : Type 0 where
  text : List ℕ → Cmd
  breakable : List ℕ → Cmd
  if_break : List ℕ → Cmd
  hard_break : Cmd
  begin_group : ℕ → List ℕ → Cmd
  end_group : List ℕ → Cmd
  shift_indent : ℤ → Cmd
  comment : List ℕ → Cmd
  splice : ℕ → Cmd

-- The innermost region of a stack of speculative regions stands first.
pub record Slot : Type 0 where
  pub commands : List Cmd
  pub speculation : List (List Cmd)
  pub dead : Bool

abbrev pub new_slot : Slot
new_slot = record { commands = []; speculation = []; dead = false }

abbrev pub newline_char : ℕ
newline_char = 10

-- `" ".repeat(n.max(0) as usize)`
unfoldable pub spaces : ℤ → List ℕ
spaces n = replicate (pos_part n) b' '

-- `char::is_whitespace`, the characters with the property White_Space.
unfoldable pub is_whitespace : ℕ → Bool
is_whitespace c =
    leb 9 c && leb c 13
    || c == 32
    || c == 0x85
    || c == 0xa0
    || c == 0x1680
    || leb 0x2000 c && leb c 0x200a
    || c == 0x2028
    || c == 0x2029
    || c == 0x202f
    || c == 0x205f
    || c == 0x3000

unfoldable pub trim_start : List ℕ → List ℕ
unfolding is_whitespace
trim_start [] = []
trim_start (c ∷ s) = let rest = trim_start s in if is_whitespace c then rest else c ∷ s

unfoldable pub splice_ids : List Cmd → List ℕ
splice_ids [] = []
splice_ids (splice id ∷ cmds) = id ∷ splice_ids cmds
splice_ids (_ ∷ cmds) = splice_ids cmds
