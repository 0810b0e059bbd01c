-- ===== src/Roles/Postprocess.antt =====
-- src/trinity/roles/postprocess.py: the transcript output made of a raw model output.
pub mod Bounds
pub mod Again
mod Tests
use minirouter.Prelude.{
  ℕ, ◌+◌, ◌-◌, ◌/◌, Bool, ◌||◌, Option, none, some, [], ◌++◌, Text, codes, strip, length, take,
  drop, leb, ◌==◌, if◌then◌else◌,
}
use minirouter.Types.{Role}

unfoldable pub elision_marker : Text
elision_marker = codes "\n... [truncated] ...\n"

abbrev pub stripped : Option Text → Text
stripped none = []
stripped (some raw) = strip raw

-- the part behind the tests: a head and a tail around the marker
unfoldable pub elide : Text → ℕ → Text
elide text max_chars =
    let budget = max_chars - length elision_marker in
    let head_len = budget / 2 in
    let tail_len = budget - head_len in
    take head_len text ++ (elision_marker ++ drop (length text - tail_len) text)

unfoldable pub truncate : Text → ℕ → Text
truncate text max_chars =
    if (max_chars == 0) || leb (length text) max_chars
    then text
    else if leb max_chars (length elision_marker)
    then take max_chars text
    else elide text max_chars

-- `postprocess(raw, role, max_chars)`; the 0 of `max_chars` stands for every non-positive value.
unfoldable pub postprocess : Option Text → Role → ℕ → Text
unfolding truncate
postprocess raw role max_chars = truncate (stripped raw) max_chars

-- the default of `max_chars`
abbrev pub default_max_chars : ℕ
default_max_chars = 8000
