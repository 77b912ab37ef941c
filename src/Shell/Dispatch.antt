-- ===== src/Shell/Dispatch.antt =====
-- What a line runs: `handle_builtin` and the end of `run` in src/shell/mod.rs, `print_help` in
-- src/shell/builtins.rs and `AppletRegistry::find` in src/applets/mod.rs. The effects are listed in
-- their order; what a command of the file system or an applet does is outside.
use planck_os.Prelude.{
  ℕ, zero, suc, ◌+◌, ◌-◌, ◌/◌, ◌%◌, Bool, true, false, ◌&&◌, ◌||◌, Option, none, some, ◌==◌,
  if◌then◌else◌, List, [], ◌∷◌, ◌++◌, length, take,
}
use planck_os.Prelude.{codes}
use planck_os.Shell.{Shell, history_get, take_apart, split_args, spaces}

-- A write to the display, a cleared display, the shutdown, or a command with its arguments.
pub data Effect : Type 0 where
  shown : List ℕ → Effect
  cleared : Effect
  shut_down : Effect
  run_command : List ℕ → List (List ℕ) → Effect

pub record Applet : Type 0 where
  pub name : List ℕ
  pub description : List ℕ

abbrev pub same_text : List ℕ → List ℕ → Bool
same_text [] [] = true
same_text [] (d ∷ ds) = false
same_text (c ∷ cs) [] = false
same_text (c ∷ cs) (d ∷ ds) = (c == d) && same_text cs ds

-- `self.applets.iter().find(|a| a.name == name)`
pub find : List ℕ → List Applet → Option Applet
find name [] = none
find name (a ∷ applets) =
    let rest = find name applets in if same_text a.name name then some a else rest

abbrev pub line_end : List ℕ
line_end = b'\n' ∷ []

pub print_cmd : List ℕ → List ℕ → List ℕ
print_cmd name desc =
    (b' ' ∷ b' ' ∷ [])
    ++ (name ++ (spaces (12 - length name) ++ ((b'-' ∷ b' ' ∷ []) ++ (desc ++ line_end))))

abbrev pub print_applets : List Applet → List ℕ
print_applets [] = []
print_applets (a ∷ applets) = print_cmd a.name a.description ++ print_applets applets

-- The heading stands only above applets.
abbrev pub applet_help : List Applet → List ℕ
applet_help [] = []
applet_help (a ∷ applets) = codes "Applets:\n" ++ print_applets (a ∷ applets)

pub print_help : List Applet → List ℕ
print_help applets =
    codes "Built-in commands:\n"
    ++ (print_cmd (codes "echo") (codes "Prints text")
        ++ (print_cmd (codes "cls") (codes "Clears screen")
            ++ (print_cmd (codes "banner") (codes "Shows welcome banner")
                ++ (print_cmd (codes "history") (codes "Shows command history")
                    ++ (print_cmd (codes "ls") (codes "List directory contents")
                        ++ (print_cmd (codes "out") (codes "Display file contents")
                            ++ (print_cmd (codes "mk") (codes "Create files and directories")
                                ++ (print_cmd (codes "rm") (codes "Remove files and directories")
                                    ++ (print_cmd (codes "cp") (codes "Copy files and directories")
                                        ++ (print_cmd (codes "shutdown")
                                              (codes "Shuts down the system")
                                            ++ (print_cmd (codes "help") (codes "This message")
                                                ++ (line_end ++ applet_help applets))))))))))))

-- One line of `history`, for the entry `idx`.
pub history_line : (List ℕ → Bool) → Shell → ℕ → List ℕ
history_line utf8 s idx =
    let num = idx + 1 in
    let entry = take 256 (history_get s idx) in
    (b' ' ∷ ((num / 10 % 256 + b'0') % 256) ∷ (num % 10 + b'0') ∷ b' ' ∷ b' ' ∷ [])
    ++ ((if utf8 entry then entry else b'?' ∷ []) ++ line_end)

-- The lines of `history`, the oldest of the first `n` entries first.
pub history_lines : (List ℕ → Bool) → Shell → ℕ → List ℕ
history_lines utf8 s zero = []
history_lines utf8 s (suc idx) = history_line utf8 s idx ++ history_lines utf8 s idx

abbrev pub banner : List ℕ
banner =
    codes "planckOS v0.1 - x86-64 Rust\n"
    ++ (codes "Copyright (C) 2026 Faris Alfarhan\n" ++ codes "Licensed GPLv3\n")

-- A command of the file system.
abbrev pub is_file_command : List ℕ → Bool
is_file_command c =
    same_text c (codes "ls")
    || (same_text c (codes "out")
        || (same_text c (codes "mk") || (same_text c (codes "rm") || same_text c (codes "cp"))))

-- `none` is a command that is not built in.
pub handle_builtin :
    (List ℕ → Bool) → List Applet → List ℕ → List ℕ → List (List ℕ) → Shell → Option (List Effect)
handle_builtin utf8 applets command args applet_args s =
    if same_text command (codes "echo")
    then some (if utf8 args then shown (args ++ line_end) ∷ [] else [])
    else if same_text command (codes "cls")
    then some (cleared ∷ [])
    else if same_text command (codes "banner")
    then some (cleared ∷ shown banner ∷ [])
    else if same_text command (codes "help")
    then some (shown (print_help applets) ∷ [])
    else if same_text command (codes "history")
    then some (shown (history_lines utf8 s s.history_count) ∷ [])
    else if same_text command (codes "shutdown")
    then some (shown (codes "Shutting down...\n") ∷ shut_down ∷ [])
    else if is_file_command command
    then some (run_command command applet_args ∷ [])
    else none

abbrev pub unknown_command : (List ℕ → Bool) → List ℕ → List ℕ
unknown_command utf8 command =
    codes "Unknown command: " ++ ((if utf8 command then command else b'?' ∷ []) ++ line_end)

-- The applet of a command, or the message about an unknown one.
pub run_applet : (List ℕ → Bool) → List Applet → List ℕ → List (List ℕ) → List Effect
run_applet utf8 applets command applet_args =
    let unknown = shown (unknown_command utf8 command) ∷ [] in
    if utf8 command
    then elim (find command applets) [
      | none ↦ unknown
      | some applet ↦ run_command applet.name applet_args ∷ []
    ]
    else unknown

-- The end of a round of `run`, after Enter; `none` is lack of fuel for the arguments, which one
-- more than the line is long gives.
pub dispatch : (List ℕ → Bool) → List Applet → List ℕ → Shell → Option (List Effect)
dispatch utf8 applets cmd s =
    let (command, args) = take_apart cmd in
    if length cmd == 0 then some [] else elim (split_args (suc (length cmd)) utf8 args []) [
      | none ↦ none
      | some applet_args ↦ elim (handle_builtin utf8 applets command args applet_args s) [
        | none ↦ some (run_applet utf8 applets command applet_args)
        | some effects ↦ some effects
      ]
    ]
