-- ===== src/Text/Tests.antt =====
-- Runs of the text helpers, and their theorems at a short text.
use bpf_program.Base.{ℕ, ◌≡◌, refl, some, List, [], ◌∷◌}
use bpf_program.Text.{starts_with, search, find, replace_from, replace_all}
use bpf_program.Text.Search.{scan}
use bpf_program.Text.Replace.{replace_all-scan}

-- "=%A;%A"
abbrev marked : List ℕ
marked = b'=' ∷ b'%' ∷ b'A' ∷ b';' ∷ b'%' ∷ b'A' ∷ []

replaced : replace_all marked (b'%' ∷ b'A' ∷ []) (b'7' ∷ []) ≡ some (b'=' ∷ b'7' ∷ b';' ∷ b'7' ∷ [])
unfolding replace_all replace_from find search starts_with
replaced = refl

replace_all-scan_example :
    replace_all marked (b'%' ∷ b'A' ∷ []) (b'%' ∷ b'%' ∷ b'A' ∷ [])
    ≡ some (scan (b'%' ∷ b'A' ∷ []) (b'%' ∷ b'%' ∷ b'A' ∷ []) 0 marked)
replace_all-scan_example = replace_all-scan marked b'%' (b'A' ∷ []) (b'%' ∷ b'%' ∷ b'A' ∷ [])
