-- ===== src/Buffer.antt =====
-- `utils::StaticBuffer` of include/iec_core/utils/buffer.h. The array `data` is the list `bytes`,
-- and the template's `size` is its length. `size_type` is a 64-bit `std::size_t`.
pub mod Word
pub mod Reads
mod Tests
use mathlib.Core.Option
use bpf_program.Base.{
  ℕ, zero, suc, ◌+◌, ◌-◌, ◌%◌, ◌^◌, Bool, Option, none, some, List, [], ◌∷◌, ltb, if◌then◌else◌,
  length, get_elem?,
}
use bpf_program.Bytes.{
  ByteOrder, little_endian, big_endian, load, byteswap16, byteswap32, byteswap64,
}

pub record StaticBuffer : Type 0 where
  pub bytes : List ℕ
  pub offset : ℕ
  pub written : ℕ

-- The constructor, which leaves the array as it is.
abbrev pub new : List ℕ → StaticBuffer
new bytes = record { bytes = bytes; offset = 0; written = 0 }

abbrev pub size : StaticBuffer → ℕ
size b = length b.bytes

-- `size_type` arithmetic wraps.
abbrev pub add_size : ℕ → ℕ → ℕ
add_size a b = (a + b) % 2 ^ 64

abbrev pub sub_size : ℕ → ℕ → ℕ
sub_size a b = (a + 2 ^ 64 - b) % 2 ^ 64

-- A pointer into the array is its index, and `nullptr` is `none`.
unfoldable pub get : StaticBuffer → Option ℕ
get b = if ltb b.offset (size b) then some b.offset else none

unfoldable pub get_free : StaticBuffer → Option ℕ
get_free b = if ltb b.written (size b) then some b.written else none

abbrev pub append_offset : ℕ → StaticBuffer → StaticBuffer
append_offset n b = record b { offset = add_size b.offset n }

abbrev pub append_written : ℕ → StaticBuffer → StaticBuffer
append_written n b = record b { written = add_size b.written n }

abbrev pub get_offset : StaticBuffer → ℕ
get_offset b = b.offset

abbrev pub get_written : StaticBuffer → ℕ
get_written b = b.written

abbrev pub get_free_size : StaticBuffer → ℕ
get_free_size b = sub_size (size b) b.written

abbrev pub reset : StaticBuffer → StaticBuffer
reset b = record b { offset = 0; written = 0 }

-- The `n` bytes from index `p` on. `none` is a read outside the array.
unfoldable pub bytes_from : List ℕ → ℕ → ℕ → Option (List ℕ)
unfolding Option.bind
bytes_from xs p zero = some []
bytes_from xs p (suc n) =
    Option.bind (get_elem? xs p) (λ x. Option.map (◌∷◌ x) (bytes_from xs (p + 1) n))

-- `std::copy_n` from a pointer, `none` if that is undefined.
unfoldable pub copy_n : List ℕ → Option ℕ → ℕ → Option (List ℕ)
copy_n xs none n = none
copy_n xs (some p) n = bytes_from xs p n

-- `read<T>` for an integer type of `count` bytes. The offset moves also where the value is 0
-- since it does not end before the array does.
unfoldable pub read : ByteOrder → ℕ → StaticBuffer → Option (ℕ × StaticBuffer)
unfolding get copy_n
read order count b =
    if ltb (add_size b.offset count) (size b)
    then Option.map (λ bs. (load order bs, append_offset count b)) (copy_n b.bytes (get b) count)
    else some (0, append_offset count b)

-- The tail of `readU16` and its like: a swap, on a little-endian machine only.
abbrev pub to_host : (ByteOrder → ℕ → ℕ) → ByteOrder → ℕ → ℕ
to_host swap little_endian x = swap little_endian x
to_host swap big_endian x = x

abbrev pub swap_read : (ByteOrder → ℕ → ℕ) → ByteOrder → ℕ × StaticBuffer → ℕ × StaticBuffer
swap_read swap order (x, b) = (to_host swap order x, b)

unfoldable pub read_u8 : ByteOrder → StaticBuffer → Option (ℕ × StaticBuffer)
read_u8 order b = read order 1 b

unfoldable pub read_u16 : ByteOrder → StaticBuffer → Option (ℕ × StaticBuffer)
read_u16 order b = Option.map (swap_read byteswap16 order) (read order 2 b)

unfoldable pub read_u32 : ByteOrder → StaticBuffer → Option (ℕ × StaticBuffer)
read_u32 order b = Option.map (swap_read byteswap32 order) (read order 4 b)

unfoldable pub read_u64 : ByteOrder → StaticBuffer → Option (ℕ × StaticBuffer)
read_u64 order b = Option.map (swap_read byteswap64 order) (read order 8 b)
