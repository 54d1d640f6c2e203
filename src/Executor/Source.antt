-- ===== src/Executor/Source.antt =====
-- What `filterSourceCode` of src/iec_core/engines/bpf_exec.cpp makes of the program's text.
use bpf_program.Base.{ℕ, ◌≡◌, refl, ap, ◌∙◌, Option, some, List, [], ◌∷◌, ◌++◌}
use bpf_program.Text.{get_mac_by_iface_name, before_mac, any_mac, remove_all}
use bpf_program.Text.Search.{scan}
use bpf_program.Text.Replace.{replace_all-scan, remove_all-without, without}
use bpf_program.Executor.{
  iface_mark, src_mark, sv_mark, sv_replacement1, sv_replacement2, any_string, format_replace,
  format_remove, replace_id, filter_source_code, chained,
}

-- The literal that stands for the address of an interface.
unfoldable pub mac_text : (List ℕ → List ℕ) → List ℕ → List ℕ
mac_text read_address [] = any_mac
mac_text read_address (c ∷ cs) = before_mac ++ without b'\n' (without b':' (read_address (c ∷ cs)))

-- The address of an interface with a name is 0x and the content of its file without colons and
-- line ends, and of one without a name the broadcast address.
pub get_mac_by_iface_name-mac_text :
    (read_address : List ℕ → List ℕ) (iface_name : List ℕ)
    → get_mac_by_iface_name read_address iface_name ≡ some (mac_text read_address iface_name)
unfolding get_mac_by_iface_name mac_text
get_mac_by_iface_name-mac_text read_address [] = refl
get_mac_by_iface_name-mac_text read_address (c ∷ cs) =
    let address = read_address (c ∷ cs) in
    rw (remove_all-without address b':', remove_all-without (without b':' address) b'\n') refl

-- What the identifier does to the text.
unfoldable pub id_text : List ℕ → List ℕ → List ℕ
id_text [] source_code = scan sv_replacement2 [] 0 (scan sv_replacement1 any_string 0 source_code)
id_text (c ∷ cs) source_code = scan sv_mark (c ∷ cs) 0 source_code

format_replace-scan :
    (w : ℕ) (ws with_text source_code : List ℕ)
    → format_replace (w ∷ ws) with_text source_code ≡ some (scan (w ∷ ws) with_text 0 source_code)
unfolding format_replace
format_replace-scan w ws with_text source_code = replace_all-scan source_code w ws with_text

format_remove-scan :
    (w : ℕ) (ws source_code : List ℕ)
    → format_remove (w ∷ ws) source_code ≡ some (scan (w ∷ ws) [] 0 source_code)
unfolding format_remove remove_all
format_remove-scan w ws source_code = replace_all-scan source_code w ws []

pub chained_at :
    {o : Option (List ℕ)} {text : List ℕ} (next : List ℕ → Option (List ℕ))
    → o ≡ some text
    → chained o next ≡ next text
chained_at next e = ap (λ o. chained o next) e

replace_id-id_text :
    (sv_id source_code : List ℕ) → replace_id sv_id source_code ≡ some (id_text sv_id source_code)
unfolding replace_id id_text
replace_id-id_text [] source_code =
    chained_at (format_remove sv_replacement2) (format_replace-scan _ _ any_string source_code)
    ∙ format_remove-scan _ _ (scan sv_replacement1 any_string 0 source_code)
replace_id-id_text (c ∷ cs) source_code = format_replace-scan _ _ (c ∷ cs) source_code

-- The assembly of the source text ends on every text, interface, address and identifier, and its
-- marks are replaced in the order interface address, source address, identifier, each in one pass
-- over what the one before left.
pub filter_source_code-id_text :
    (read_address : List ℕ → List ℕ) (program iface_name src_mac sv_id : List ℕ)
    → filter_source_code read_address program iface_name src_mac sv_id
      ≡ some (
          id_text sv_id (
            scan src_mark src_mac 0 (scan iface_mark (mac_text read_address iface_name) 0 program)))
unfolding filter_source_code
filter_source_code-id_text read_address program iface_name src_mac sv_id =
    let mac = mac_text read_address iface_name in
    let first = scan iface_mark mac 0 program in
    chained_at _ (get_mac_by_iface_name-mac_text read_address iface_name)
    ∙ chained_at (λ text. chained (format_replace src_mark src_mac text) (replace_id sv_id))
        (format_replace-scan _ _ mac program)
    ∙ chained_at (replace_id sv_id) (format_replace-scan _ _ src_mac first)
    ∙ replace_id-id_text sv_id (scan src_mark src_mac 0 first)
