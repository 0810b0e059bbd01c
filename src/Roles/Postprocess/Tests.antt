-- ===== src/Roles/Postprocess/Tests.antt =====
-- Runs of the post-processing, with a small budget.
use minirouter.Prelude.{◌≡◌, ◌≤◌, refl, some, ◌++◌, arith, Text, codes, length, lstrip, strip}
use minirouter.Types.{worker}
use minirouter.Roles.Postprocess.{postprocess, elision_marker, elide}
use minirouter.Roles.Postprocess.Bounds.{length-postprocess-le}

abbrev long_text : Text
long_text = codes "head and a middle part that is dropped and tail"

elided : postprocess (some long_text) worker 31 ≡ codes "head \n... [truncated] ...\n tail"
unfolding postprocess strip lstrip elision_marker elide
elided = refl

length-postprocess-le_example : length (postprocess (some long_text) worker 31) ≤ 31
length-postprocess-le_example = length-postprocess-le (some long_text) worker 31 (omega arith)

long_stripped :
    strip long_text
    ≡ codes "head" ++ (codes " and a middle part that is dropped and " ++ codes "tail")
unfolding strip lstrip
long_stripped = refl
