-- ===== src/Build/Options.antt =====
-- ton_client/build-lib.js: the reader of the command line.
pub mod Words
pub mod Last
use ton_sdk.Base.{
  Text, ℕ, Bool, true, false, Option, none, some, List, [], ◌∷◌, ◌++◌, if◌then◌else◌, ◌==◌, ◌||◌,
  any_of, codes, same, drop, starts_with, get_elem?, Outcome, returns, required, ◌>>=◌, ◌≡◌, refl,
  not,
}

-- What an option is set to: `true`, or a text.
pub data Value : Type 0 where
  on : Value
  given : Text → Value

-- `acc`: the assignments, the latest first.
abbrev pub Settings : Type 0
Settings = List (Text × Value)

-- The units that `.` does not match in a regular expression.
unfoldable pub is_line_terminator : ℕ → Bool
is_line_terminator c = c == 10 || c == 13 || c == 8232 || c == 8233

-- What `(.*)` matches.
unfoldable pub first_line : Text → Text
unfolding is_line_terminator
first_line [] = []
first_line (c ∷ s) = if is_line_terminator c then [] else c ∷ first_line s

-- `name.split(/=(.*)/, 2)`: `none` is `undefined`.
unfoldable pub name_and_value : Text → Text × Option Text
unfolding first_line
name_and_value [] = ([], none)
name_and_value (c ∷ s) =
    let rest = name_and_value s in
    if c == b'=' then ([], some (first_line s)) else (c ∷ rest.0, rest.1)

-- `key.split(/^--/, 2)[1]`.
unfoldable pub option_name : Text → Option Text
option_name key = if starts_with (codes "--") key then some (drop 2 key) else none

-- `acc[name] = value`: a value that is no object leaves the prototype as it is.
unfoldable pub assign : Text → Value → Settings → Settings
assign name value acc = if same name (codes "__proto__") then acc else (name, value) ∷ acc

-- The branches that look at the next argument; the empty text counts as none.
unfoldable pub set_by_next : Text → Option Text → Settings → Settings
unfolding assign
set_by_next [] next acc = acc
set_by_next (c ∷ n) none acc = assign (c ∷ n) on acc
set_by_next (c ∷ n) (some []) acc = assign (c ∷ n) on acc
set_by_next (c ∷ n) (some (d ∷ s)) acc =
    if starts_with (codes "-") (d ∷ s)
    then assign (c ∷ n) on acc
    else assign (c ∷ n) (given (d ∷ s)) acc

-- The four branches.
unfoldable pub set_option : Text → Text → Option Text → Option Text → Settings → Settings
unfolding assign set_by_next
set_option name [] value next acc = set_by_next name next acc
set_option name (c ∷ n) none next acc = set_by_next name next acc
set_option name (c ∷ n) (some []) next acc = set_by_next name next acc
set_option name (c ∷ n) (some (d ∷ v)) next acc = assign (c ∷ n) (given (d ∷ v)) acc

-- One round of the `reduce`: `next` is `argv[ind + 1]`.
unfoldable pub option_step : Text → Option Text → Settings → Outcome Settings
unfolding option_name set_option name_and_value
option_step key next acc =
    if starts_with (codes "-") key
    then (do
      name ← required (option_name key)
      returns (set_option name (name_and_value name).0 (name_and_value name).1 next acc))
    else returns acc

unfoldable pub options_loop : List Text → Settings → Outcome Settings
unfolding option_step
options_loop [] acc = returns acc
options_loop (key ∷ argv) acc = do a ← option_step key (get_elem? argv 0) acc; options_loop argv a

-- `options`, from `process.argv.slice(2)`.
unfoldable pub parse_options : List Text → Outcome Settings
unfolding options_loop
parse_options argv = options_loop argv []

-- The property that `options` has of its own: `options[opt]`, where the object that `{}` inherits
-- from has no such member.
unfoldable pub option_of : Settings → Text → Option Value
option_of [] opt = none
option_of ((name, value) ∷ s) opt = if same name opt then some value else option_of s opt

-- The members of `Object.prototype`, which `{}` inherits.
abbrev pub object_members : List Text
object_members =
    codes "constructor"
    ∷ codes "__defineGetter__"
    ∷ codes "__defineSetter__"
    ∷ codes "hasOwnProperty"
    ∷ codes "__lookupGetter__"
    ∷ codes "__lookupSetter__"
    ∷ codes "isPrototypeOf"
    ∷ codes "propertyIsEnumerable"
    ∷ codes "toString"
    ∷ codes "valueOf"
    ∷ codes "__proto__"
    ∷ codes "toLocaleString"
    ∷ []

-- `options[opt]`, which is `undefined` where it is missing.
pub data Answer : Type 0 where
  own : Value → Answer
  inherited missing : Answer

abbrev pub or_inherited : Text → Option Value → Answer
or_inherited opt none = if any_of (same opt) object_members then inherited else missing
or_inherited opt (some value) = own value

unfoldable pub read_option : Settings → Text → Answer
unfolding option_of
read_option s opt = or_inherited opt (option_of s opt)

-- `!!getOption(opt)`.
unfoldable pub is_set : Option Value → Bool
is_set none = false
is_set (some on) = true
is_set (some (given [])) = false
is_set (some (given (c ∷ s))) = true

-- `spawnEnv`, the environment of the processes: `true` is set, which node hands on as a text.
unfoldable pub spawn_env : List (Text × Text) → Settings → List (Text × Text)
unfolding option_of is_set
spawn_env env s =
    if is_set (option_of s (codes "no-build-info"))
    then (codes "NO_BUILD_INFO", codes "true") ∷ env
    else env

options_sample :
    parse_options
      (codes "--verbose" ∷ codes "--dev-out=out" ∷ codes "x" ∷ codes "--a" ∷ codes "b" ∷ [])
    ≡ returns (
        (codes "a", given (codes "b"))
        ∷ (codes "dev-out", given (codes "out"))
        ∷ (codes "verbose", on)
        ∷ [])
unfolding parse_options same
options_sample = refl
