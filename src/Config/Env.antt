-- ===== src/Config/Env.antt =====
-- services/pxe-stack/internal/config/config.go: what it reads the environment with, and parsePortList.
use goosed.Support.{
  ℕ, Bool, true, false, ◌||◌, Option, none, some, List, [], ◌∷◌, ◌++◌, ◌==◌, ltb, if◌then◌else◌,
  any,
}
use goosed.Support.Text.{Text, trim_space, split}
use goosed.Support.Strconv.{ℤ, pos, negsuc, atoi, parse_bool}
use goosed.Support.Results.{Result, ok, err}

abbrev pub is_unset : Text → Bool
is_unset [] = true
is_unset (c ∷ s) = false

-- getEnv, of the value that os.Getenv returns, "" where the variable is not set
abbrev pub get_env : Text → Text → Text
get_env v def = if is_unset v then def else v

abbrev or_default : {A : Type 0} → A → Option A → A
or_default def none = def
or_default def (some a) = a

-- getEnvBool, likewise
unfoldable pub get_env_bool : Text → Bool → Bool
unfolding parse_bool
get_env_bool v def = if is_unset v then def else or_default def (parse_bool v)

-- getEnvInt, likewise
unfoldable pub get_env_int : Text → ℤ → ℤ
unfolding atoi
get_env_int v def = if is_unset v then def else or_default def (atoi v)

pub data PortError : Type 0 where
  not_an_integer : Text → PortError
  out_of_range : ℤ → PortError

-- The port of one part, or why there is none.
abbrev pub port_of : Text → Option ℤ → Result PortError ℕ
port_of part none = err (not_an_integer part)
port_of part (some (negsuc n)) = err (out_of_range (negsuc n))
port_of part (some (pos n)) = if n == 0 || ltb 65535 n then err (out_of_range (pos n)) else ok n

-- The loop of parsePortList, with the ports found so far, which are those of `seen`.
abbrev pub add_port :
    List ℕ → Result PortError ℕ → (List ℕ → Result PortError (List ℕ)) → Result PortError (List ℕ)
add_port ports (err e) rest = err e
add_port ports (ok n) rest = if any (λ p. p == n) ports then rest ports else rest (ports ++ n ∷ [])

unfoldable pub collect_ports : List Text → List ℕ → Result PortError (List ℕ)
unfolding atoi trim_space any
collect_ports [] ports = ok ports
collect_ports (part ∷ parts) ports =
    if is_unset (trim_space part)
    then collect_ports parts ports
    else add_port ports (port_of (trim_space part) (atoi (trim_space part)))
        (λ found. collect_ports parts found)

-- parsePortList; nil and the empty slice are one list
unfoldable pub parse_port_list : Text → Result PortError (List ℕ)
unfolding collect_ports split
parse_port_list value = collect_ports (split 44 value) []
