-- ===== src/Text.antt =====
-- The text helpers of src/iec_core/utils/helpers.cpp and `utils::SourceCodeFormater`
-- (src/iec_core/utils/code_formater.cpp). A string is the list of its characters.
pub mod Search
pub mod Replace
pub mod Files
mod Tests
use bpf_program.Base.{
  ℕ, zero, suc, ◌+◌, Bool, true, false, ◌&&◌, Option, none, some, List, [], ◌∷◌, ◌++◌, ltb, ◌==◌,
  if◌then◌else◌, length, take, drop,
}

-- A C string ends before its first zero.
abbrev pub c_str : List ℕ → List ℕ
c_str [] = []
c_str (c ∷ cs) = let rest = c ∷ c_str cs in if c == 0 then [] else rest

-- Whether a string begins with another.
unfoldable pub starts_with : (what text : List ℕ) → Bool
starts_with [] text = true
starts_with (w ∷ ws) [] = false
starts_with (w ∷ ws) (c ∷ cs) = w == c && starts_with ws cs

-- `std::string::find` in what is left of a string from a position on.
unfoldable pub search : (what text : List ℕ) → ℕ → Option ℕ
search what [] pos = if starts_with what [] then some pos else none
search what (c ∷ cs) pos =
    let later = search what cs (suc pos) in if starts_with what (c ∷ cs) then some pos else later

-- `std::string::find`, where `none` is `npos`.
unfoldable pub find : (text what : List ℕ) → ℕ → Option ℕ
find text what pos = if ltb (length text) pos then none else search what (drop pos text) pos

-- `std::string::replace`
abbrev pub replace : List ℕ → ℕ → ℕ → List ℕ → List ℕ
replace text pos count with_text = take pos text ++ (with_text ++ drop (pos + count) text)

-- A round of the loop of `replace_all`, at what `find` gives.
abbrev pub replace_at :
    (List ℕ → ℕ → Option (List ℕ)) → (what with_text out : List ℕ) → Option ℕ → Option (List ℕ)
replace_at next what with_text out none = some out
replace_at next what with_text out (some at) =
    next (replace out at (length what) with_text) (at + length with_text)

-- The loop of `replace_all` at `out` and `pos`, with nothing where it runs on.
unfoldable pub replace_from : (what with_text : List ℕ) → ℕ → List ℕ → ℕ → Option (List ℕ)
replace_from what with_text zero out pos = none
replace_from what with_text (suc fuel) out pos =
    replace_at (replace_from what with_text fuel) what with_text out (find out what pos)

-- A round takes at least one character from what is left to search.
unfoldable pub replace_all : (text what with_text : List ℕ) → Option (List ℕ)
replace_all text what with_text = replace_from what with_text (suc (length text)) text 0

unfoldable pub remove_all : (text what : List ℕ) → Option (List ℕ)
remove_all text what = replace_all text what []

abbrev pub before_mac : List ℕ
before_mac = b'0' ∷ b'x' ∷ []

abbrev pub any_mac : List ℕ
any_mac =
    b'0' ∷ b'x' ∷ b'F' ∷ b'F' ∷ b'F' ∷ b'F' ∷ b'F' ∷ b'F' ∷ b'F' ∷ b'F' ∷ b'F' ∷ b'F' ∷ b'F' ∷ b'F'
    ∷ []

abbrev pub then_remove : Option (List ℕ) → List ℕ → Option (List ℕ)
then_remove none what = none
then_remove (some text) what = remove_all text what

abbrev pub with_prefix : Option (List ℕ) → Option (List ℕ)
with_prefix none = none
with_prefix (some text) = some (before_mac ++ text)

-- `read_address` is the content of the interface's file under /sys/class/net.
unfoldable pub get_mac_by_iface_name : (List ℕ → List ℕ) → List ℕ → Option (List ℕ)
get_mac_by_iface_name read_address [] = some any_mac
get_mac_by_iface_name read_address (c ∷ cs) =
    with_prefix (then_remove (remove_all (read_address (c ∷ cs)) (b':' ∷ [])) (b'\n' ∷ []))
