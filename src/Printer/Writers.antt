-- ===== src/Printer/Writers.antt =====
-- hegel-c/src/native/printer.rs: the calls of a writer, each of which records a command, and whether a target takes
-- any more of them.
use hegel_rust.Base.{ℕ, Bool, not, List}
use hegel_rust.Base.Int.{ℤ}
use hegel_rust.Base.Outcomes.{ok, at, ◌>>=◌}
use hegel_rust.Printer.Commands
use hegel_rust.Printer.Commands.{Target}
use hegel_rust.Printer.Renderer.{Rendering}
use hegel_rust.Printer.Recorder.{Printer, dispatch}

unfoldable pub text : Target → List ℕ → Printer → Rendering Printer
text target s = dispatch target (Commands.text s)

unfoldable pub if_break : Target → List ℕ → Printer → Rendering Printer
if_break target s = dispatch target (Commands.if_break s)

unfoldable pub breakable : Target → List ℕ → Printer → Rendering Printer
breakable target sep = dispatch target (Commands.breakable sep)

unfoldable pub hard_break : Target → Printer → Rendering Printer
hard_break target = dispatch target Commands.hard_break

unfoldable pub begin_group : Target → ℕ → List ℕ → Printer → Rendering Printer
begin_group target indent opening = dispatch target (Commands.begin_group indent opening)

unfoldable pub end_group : Target → List ℕ → Printer → Rendering Printer
end_group target close = dispatch target (Commands.end_group close)

unfoldable pub shift_indent : Target → ℤ → Printer → Rendering Printer
shift_indent target delta = dispatch target (Commands.shift_indent delta)

unfoldable pub comment : Target → List ℕ → Printer → Rendering Printer
comment target s = dispatch target (Commands.comment s)

unfoldable pub slot_is_live : ℕ → Printer → Rendering Bool
slot_is_live id p = do s ← at p.slots id; ok (not s.dead)

unfoldable pub main_is_live : Printer → Bool
main_is_live p = not p.sealed
