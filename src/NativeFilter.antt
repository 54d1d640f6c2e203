-- ===== src/NativeFilter.antt =====
-- The filter that benchmarks/common_benchmark/bench_bpf.cpp compares the eBPF program with.
pub mod Names
pub mod Frames
mod Tests
use mathlib.Core.Option
use bpf_program.Base.{
  ℕ, ◌+◌, ◌-◌, ◌*◌, ◌/◌, ◌%◌, ◌^◌, Bool, true, false, ◌&&◌, ◌||◌, Option, none, some, List, [], ◌∷◌,
  ltb, leb, ◌==◌, if◌then◌else◌, get_elem?,
}
use bpf_program.Bytes.{ByteOrder, load}
use bpf_program.Buffer.{sub_size, bytes_from}
use bpf_program.Asdu.{sizeof_ether_header}
use bpf_program.Text.{c_str}

abbrev pub sv_type1 : ℕ
sv_type1 = 0x8100

abbrev pub sv_type2 : ℕ
sv_type2 = 0x88ba

abbrev pub sv_id_size : ℕ
sv_id_size = 35

abbrev pub p80_offset : ℕ
p80_offset = 18

abbrev pub p256_offset : ℕ
p256_offset = 22

-- "ENS80pointMU01" and "ENS256MUnn01"
abbrev pub name_80 : List ℕ
name_80 =
    b'E' ∷ b'N' ∷ b'S' ∷ b'8' ∷ b'0' ∷ b'p' ∷ b'o' ∷ b'i' ∷ b'n' ∷ b't' ∷ b'M' ∷ b'U' ∷ b'0' ∷ b'1'
    ∷ []

abbrev pub name_256 : List ℕ
name_256 = b'E' ∷ b'N' ∷ b'S' ∷ b'2' ∷ b'5' ∷ b'6' ∷ b'M' ∷ b'U' ∷ b'n' ∷ b'n' ∷ b'0' ∷ b'1' ∷ []

-- The two parts that are or-ed have no bit in common.
abbrev pub swapped : ℕ → ℕ
swapped val = (val / 2 ^ 8) % 2 ^ 8 + (val * 2 ^ 8) % 2 ^ 16

-- `==` of `std::string`
abbrev pub same_text : List ℕ → List ℕ → Bool
same_text [] [] = true
same_text [] (b ∷ ys) = false
same_text (a ∷ xs) [] = false
same_text (a ∷ xs) (b ∷ ys) = a == b && same_text xs ys

-- Behind the reading of `svIdLength`. `svId` is all zeros where the name is too long for it.
-- Nothing stands for a read outside of the memory at `data`.
unfoldable pub compare_name : (name memory : List ℕ) → ℕ → ℕ → Option Bool
compare_name name memory at sv_id_length =
    if ltb sv_id_length (sv_id_size - 1)
    then Option.map (λ id. same_text (c_str id) name) (bytes_from memory at sv_id_length)
    else some (same_text [] name)

unfoldable pub same_name : (name memory : List ℕ) → ℕ → Option Bool
unfolding Option.bind
same_name name memory at = Option.bind (get_elem? memory at) (compare_name name memory (at + 1))

unfoldable pub by_size : List ℕ → ℕ → Option Bool
by_size memory size =
    if leb 0x70 size && leb size 0x100
    then same_name name_80 memory (sizeof_ether_header + p80_offset)
    else if leb 0x30b size && leb size 0x500
    then same_name name_256 memory (sizeof_ether_header + p256_offset)
    else some false

unfoldable pub by_type : ByteOrder → List ℕ → ℕ → List ℕ → Option Bool
by_type order memory size bytes =
    let kind = swapped (load order bytes) in
    if kind == sv_type1 || kind == sv_type2
    then by_size memory (sub_size size sizeof_ether_header)
    else some false

-- `memory` is what `data` points to, or nothing for `nullptr`.
unfoldable pub native_filter : ByteOrder → Option (List ℕ) → ℕ → Option Bool
unfolding Option.bind
native_filter order none size = some false
native_filter order (some memory) size =
    if ltb 0 size
    then Option.bind (bytes_from memory 12 2) (by_type order memory size)
    else some false
