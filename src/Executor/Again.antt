-- ===== src/Executor/Again.antt =====
-- `filterSourceCode` of src/iec_core/engines/bpf_exec.cpp on a text whose marks were replaced before.
use bpf_program.Base.{ℕ, ◌≡◌, ap, ◌∙◌, none, some, List, [], ◌∷◌, length}
use bpf_program.Text.{find, replace_all, replace_from, remove_all, replace_at}
use bpf_program.Executor.{
  iface_mark, src_mark, sv_mark, sv_replacement1, sv_replacement2, any_string, format_replace,
  format_remove, replace_id, filter_source_code, chained,
}
use bpf_program.Executor.Source.{mac_text, get_mac_by_iface_name-mac_text, chained_at}

-- The text has none of the strings that `filterSourceCode` looks for.
pub record IsFilledIn (text : List ℕ) : Type 0 where
  pub no_iface : find text iface_mark 0 ≡ none
  pub no_src : find text src_mark 0 ≡ none
  pub no_sv : find text sv_mark 0 ≡ none
  pub no_literal : find text sv_replacement1 0 ≡ none
  pub no_test : find text sv_replacement2 0 ≡ none

replace_all-absent :
    (text what by : List ℕ) → find text what 0 ≡ none → replace_all text what by ≡ some text
unfolding replace_all replace_from
replace_all-absent text what by h =
    ap (replace_at (replace_from what by (length text)) what by text) h

format_replace-absent :
    (text what by : List ℕ) → find text what 0 ≡ none → format_replace what by text ≡ some text
unfolding format_replace
format_replace-absent text what by h = replace_all-absent text what by h

replace_id-absent : (sv_id text : List ℕ) → IsFilledIn text → replace_id sv_id text ≡ some text
unfolding replace_id format_remove remove_all
replace_id-absent [] text h =
    chained_at (format_remove sv_replacement2)
      (format_replace-absent text sv_replacement1 any_string h.no_literal)
    ∙ replace_all-absent text sv_replacement2 [] h.no_test
replace_id-absent (c ∷ cs) text h = format_replace-absent text sv_mark (c ∷ cs) h.no_sv

-- A text with none of the strings looked for stays as it is, whatever the settings are.
pub filter_source_code-absent :
    (read_address : List ℕ → List ℕ) (text iface_name src_mac sv_id : List ℕ)
    → IsFilledIn text
    → filter_source_code read_address text iface_name src_mac sv_id ≡ some text
unfolding filter_source_code
filter_source_code-absent read_address text iface_name src_mac sv_id h =
    let mac = mac_text read_address iface_name in
    chained_at _ (get_mac_by_iface_name-mac_text read_address iface_name)
    ∙ chained_at (λ t. chained (format_replace src_mark src_mac t) (replace_id sv_id))
        (format_replace-absent text iface_mark mac h.no_iface)
    ∙ chained_at (replace_id sv_id) (format_replace-absent text src_mark src_mac h.no_src)
    ∙ replace_id-absent sv_id text h
