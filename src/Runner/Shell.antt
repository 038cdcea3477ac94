-- ===== src/Runner/Shell.antt =====
-- `getShellCommand` of pkg/buildfab/buildfab.go. `goos` is `runtime.GOOS` and `look_path` tells whether
-- `exec.LookPath` finds a program.
use buildfab.Base.{
  Str, Bool, not, ◌&&◌, ◌||◌, List, [], ◌∷◌, ◌++◌, codes, str_eq, if◌then◌else◌, Fallible, returns,
  fails,
}
use buildfab.Base.Strings.{str_contains, has_suffix}

pub record ShellCommand : Type 0 where
  pub shell : Str
  pub args : List Str

abbrev pub euc : List Str
euc = codes "-euc" ∷ []

unfoldable pub shell_args : Str → List Str
shell_args shell =
    if str_contains shell (codes "bash")
    then euc
    else if str_contains shell (codes "powershell") || str_contains shell (codes "pwsh")
    then codes "-NoProfile" ∷ codes "-Command" ∷ []
    else if str_contains shell (codes "cmd")
    then codes "/C" ∷ []
    else if str_contains shell (codes "sh")
        || (str_contains shell (codes "zsh") || str_contains shell (codes "fish"))
    then euc
    else euc

-- On Windows a shell's name ends in `.exe`.
unfoldable pub shell_name : Str → Str → Str
shell_name goos user_shell =
    if str_eq goos (codes "windows") && not (has_suffix user_shell (codes ".exe"))
    then user_shell ++ codes ".exe"
    else user_shell

unfoldable pub default_shell : Str → (Str → Bool) → ShellCommand
default_shell goos look_path =
    if str_eq goos (codes "windows")
    then if look_path (codes "bash.exe")
      then record { shell = codes "bash.exe"; args = euc }
      else record { shell = codes "cmd.exe"; args = codes "/C" ∷ [] }
    else record { shell = codes "sh"; args = euc }

unfoldable pub user_command : (Str → Bool) → Str → Fallible ShellCommand
user_command look_path name =
    if look_path name
    then returns (record { shell = name; args = shell_args name })
    else fails (
        codes "shell '"
        ++ (name ++ codes "' not found in PATH. Please install it or use a different shell"))

unfoldable pub get_shell_command : Str → (Str → Bool) → Str → Fallible ShellCommand
get_shell_command goos look_path user_shell =
    if not (str_eq user_shell [])
    then user_command look_path (shell_name goos user_shell)
    else returns (default_shell goos look_path)
