-- ===== src/Executor.antt =====
-- `filterSourceCode` of src/iec_core/engines/bpf_exec.cpp: the source text that is compiled. The
-- formatter it calls keeps one string, `sourceCode`, and hands it to the text helpers.
pub mod Source
pub mod Again
pub mod Device
use bpf_program.Base.{ℕ, Option, none, some, List, [], ◌∷◌}
use bpf_program.Text.Files.{read_file}
use bpf_program.Text.{replace_all, remove_all, get_mac_by_iface_name}

abbrev pub iface_mark : List ℕ
iface_mark = b'%' ∷ b'I' ∷ b'F' ∷ b'A' ∷ b'C' ∷ b'E' ∷ b'_' ∷ b'M' ∷ b'A' ∷ b'C' ∷ []

abbrev pub src_mark : List ℕ
src_mark = b'%' ∷ b'S' ∷ b'R' ∷ b'C' ∷ b'_' ∷ b'M' ∷ b'A' ∷ b'C' ∷ []

abbrev pub sv_mark : List ℕ
sv_mark = b'%' ∷ b'S' ∷ b'V' ∷ b'_' ∷ b'I' ∷ b'D' ∷ []

abbrev pub sv_replacement1 : List ℕ
sv_replacement1 =
    b'c' ∷ b'h' ∷ b'a' ∷ b'r' ∷ b' ' ∷ b'c' ∷ b'm' ∷ b'p' ∷ b'_' ∷ b's' ∷ b't' ∷ b'r' ∷ b'[' ∷ b']'
    ∷ b' ' ∷ b'=' ∷ b' ' ∷ 34 ∷ b'%' ∷ b'S' ∷ b'V' ∷ b'_' ∷ b'I' ∷ b'D' ∷ 34 ∷ b';' ∷ []

abbrev pub any_string : List ℕ
any_string =
    b'c' ∷ b'h' ∷ b'a' ∷ b'r' ∷ b' ' ∷ b'c' ∷ b'o' ∷ b'n' ∷ b's' ∷ b't' ∷ b' ' ∷ 42 ∷ b'c' ∷ b'm'
    ∷ b'p' ∷ b'_' ∷ b's' ∷ b't' ∷ b'r' ∷ b' ' ∷ b'=' ∷ b' ' ∷ b's' ∷ b't' ∷ b'r' ∷ b';' ∷ []

abbrev pub sv_replacement2 : List ℕ
sv_replacement2 =
    10 ∷ b' ' ∷ b' ' ∷ b' ' ∷ b' ' ∷ b' ' ∷ b' ' ∷ b' ' ∷ b' ' ∷ b'i' ∷ b'f' ∷ b' ' ∷ b'(' ∷ b's'
    ∷ b'i' ∷ b'z' ∷ b'e' ∷ b'o' ∷ b'f' ∷ b'(' ∷ b'c' ∷ b'm' ∷ b'p' ∷ b'_' ∷ b's' ∷ b't' ∷ b'r'
    ∷ b')' ∷ b' ' ∷ b'!' ∷ b'=' ∷ b' ' ∷ b'l' ∷ b'e' ∷ b'n' ∷ b'g' ∷ b't' ∷ b'h' ∷ b')' ∷ 10 ∷ b' '
    ∷ b' ' ∷ b' ' ∷ b' ' ∷ b' ' ∷ b' ' ∷ b' ' ∷ b' ' ∷ b' ' ∷ b' ' ∷ b' ' ∷ b' ' ∷ b'r' ∷ b'e'
    ∷ b't' ∷ b'u' ∷ b'r' ∷ b'n' ∷ b' ' ∷ b'f' ∷ b'a' ∷ b'l' ∷ b's' ∷ b'e' ∷ b';' ∷ 10 ∷ b' ' ∷ b' '
    ∷ b' ' ∷ b' ' ∷ []

-- A call on the formatter, unless one before it runs on.
abbrev pub chained : Option (List ℕ) → (List ℕ → Option (List ℕ)) → Option (List ℕ)
chained none next = none
chained (some text) next = next text

-- `SourceCodeFormater::replace` and `remove`, at the string kept.
unfoldable pub format_replace : List ℕ → List ℕ → List ℕ → Option (List ℕ)
format_replace what with_text source_code = replace_all source_code what with_text

unfoldable pub format_remove : List ℕ → List ℕ → Option (List ℕ)
format_remove what source_code = remove_all source_code what

-- The branch on `svID.empty()`.
unfoldable pub replace_id : List ℕ → List ℕ → Option (List ℕ)
replace_id [] source_code =
    chained (format_replace sv_replacement1 any_string source_code) (format_remove sv_replacement2)
replace_id (c ∷ cs) source_code = format_replace sv_mark (c ∷ cs) source_code

-- `read_address` is the content of an interface's address file, `program` the text of the file
-- that the executor was made with.
unfoldable pub filter_source_code :
    (List ℕ → List ℕ) → (program iface_name src_mac sv_id : List ℕ) → Option (List ℕ)
filter_source_code read_address program iface_name src_mac sv_id =
    chained (get_mac_by_iface_name read_address iface_name) (λ mac.
      chained (format_replace iface_mark mac program)
        (λ text. chained (format_replace src_mark src_mac text) (replace_id sv_id)))

-- The constructor of the formatter, where `content` gives what the file of a path holds.
unfoldable pub new_formater : (List ℕ → List ℕ) → List ℕ → Option (List ℕ)
new_formater content src_filepath = read_file (content src_filepath)

abbrev pub set_source_code : List ℕ → List ℕ → List ℕ
set_source_code new_src source_code = new_src

abbrev pub get_source_code : List ℕ → List ℕ
get_source_code source_code = source_code

-- `BPFExecutor`, at the string that its formatter keeps. What bcc keeps is in the kernel's state.
pub record BpfExecutor : Type 0 where
  pub bpf_prog : List ℕ

abbrev pub executor_of : Option (List ℕ) → Option BpfExecutor
executor_of none = none
executor_of (some text) = some (record { bpf_prog = text })

unfoldable pub new_executor : (List ℕ → List ℕ) → List ℕ → Option BpfExecutor
new_executor content program_path = executor_of (new_formater content program_path)
