-- ===== src/Command.antt =====
-- The text functions of internal/command/command.go: preArgument, hasArgument and systemdQuote.
pub mod Words
pub mod Machine
pub mod Layout
pub mod Flags
pub mod Removal
pub mod LocalFiles
pub mod Prepare
pub mod RuntimeFile
pub mod Install
pub mod Uninstall
pub mod Help
pub mod Runs
pub mod Effects
use docker_control.Prelude.{Bool, true, false, ◌||◌, List, [], ◌∷◌, ◌++◌, ◌=?◌, if◌then◌else◌}
use docker_control.Text.{Text, codes, has_prefix, trim_prefix, replace_byte}

-- `arguments[index+1]`, where there is one
abbrev pub next_or : Text → List Text → Text
next_or value [] = value
next_or value (next ∷ rest) = next

abbrev pub after_equals : Text → Text → Text → Text
after_equals name argument value =
    if has_prefix argument (name ++ codes "=")
    then trim_prefix argument (name ++ codes "=")
    else value

abbrev pub taken : Text → Text → List Text → Text → Text
taken name argument rest value =
    if argument =? name
    then next_or (after_equals name argument value) rest
    else after_equals name argument value

-- The loop of preArgument, with `value`
unfoldable pub pre_loop : Text → List Text → Text → Text
pre_loop name [] value = value
pre_loop name (argument ∷ rest) value = pre_loop name rest (taken name argument rest value)

unfoldable pub pre_argument : List Text → Text → Text
unfolding pre_loop
pre_argument arguments name = pre_loop name arguments []

unfoldable pub has_argument : List Text → Text → Bool
has_argument [] name = false
has_argument (argument ∷ arguments) name = argument =? name || has_argument arguments name

unfoldable pub systemd_quote : Text → Text
systemd_quote value =
    b'"'
    ∷ (replace_byte (replace_byte value b'\\' (b'\\' ∷ b'\\' ∷ [])) b'"' (b'\\' ∷ b'"' ∷ [])
        ++ b'"' ∷ [])
