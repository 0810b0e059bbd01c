-- ===== src/Fugu/Extract/Tests.antt =====
-- Runs of the extractor.
use minirouter.Prelude.{◌≡◌, refl, [], ◌∷◌, codes, lstrip, strip}
use minirouter.Prelude.Unicode.{plain, is_word}
use minirouter.Fugu.Extract.{extract_bracketed_all}

-- A bracket in a string does not close the list, and a scalar assignment takes no later list.
spans :
    extract_bracketed_all plain
      (codes "my_access = [1] access : ['a]', [0]] access=0, x=[2]")
      (codes "access")
    ≡ (16, codes "['a]', [0]]") ∷ []
unfolding extract_bracketed_all lstrip strip is_word
spans = refl
