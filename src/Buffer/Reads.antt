-- ===== src/Buffer/Reads.antt =====
-- The reads of include/iec_core/utils/buffer.h against their description.
use mathlib.Core.Option
use bpf_program.Base.{
  ℕ, zero, suc, ◌+◌, ◌^◌, ◌≤◌, ◌<◌, ◌≡◌, refl, ap, ◌∙◌, arith, if◌then◌else◌, Bool-cases, inl, inr,
  some, List, [], ◌∷◌, ltb, ltb→lt, length, get_elem?, get_or, take, drop, All-take, All-drop,
  length-take, length-drop,
}
use bpf_program.Bytes.{
  ByteOrder, little_endian, big_endian, load, of_be, byteswap16, byteswap32, byteswap64,
}
use bpf_program.Buffer.{
  StaticBuffer, size, append_offset, bytes_from, read, to_host, swap_read, read_u8, read_u16,
  read_u32, read_u64,
}
use bpf_program.Buffer.Word.{word_at, IsByte, IsBytes}

drop-at :
    (xs : List ℕ) (p : ℕ)
    → p < length xs
    → (get_elem? xs p ≡ some (get_or xs p 0)) × (drop p xs ≡ get_or xs p 0 ∷ drop (p + 1) xs)
drop-at [] p h = absurd (omega arith)
drop-at (x ∷ xs) zero h = (refl, refl)
drop-at (x ∷ xs) (suc p) h =
    let (found, dropped) = drop-at xs p (omega arith) in
    let e : suc (p + 1) ≡ suc p + 1 = omega arith in
    (found, dropped ∙ ap (λ k. get_or xs p 0 ∷ drop k (x ∷ xs)) e)

pub bytes_from-take :
    (n : ℕ) (xs : List ℕ) (p : ℕ)
    → p + n ≤ length xs
    → bytes_from xs p n ≡ some (take n (drop p xs))
unfolding bytes_from
bytes_from-take zero xs p h = refl
bytes_from-take (suc n) xs p h =
    let (found, dropped) = drop-at xs p (omega arith) in
    rw (found, dropped, bytes_from-take n xs (p + 1) (omega arith))

-- What `read` returns of an object of `n` bytes, in memory order.
read-load :
    (order : ByteOrder) (n : ℕ) (b : StaticBuffer)
    → b.offset + n < 2 ^ 64
    → read order n b
      ≡ some (
        if ltb (b.offset + n) (size b) then load order (take n (drop b.offset b.bytes)) else 0,
        append_offset n b,
      )
unfolding read
read-load order n b small = ground (arith, bytes_from-take n b.bytes b.offset)

-- Bytes in memory order, swapped on a little-endian machine, are read most significant first.
to_host16 :
    (order : ByteOrder) (xs : List ℕ)
    → length xs ≡ 2
    → IsBytes xs
    → to_host byteswap16 order (load order xs) ≡ of_be xs
unfolding byteswap16
to_host16 little_endian (a ∷ b ∷ []) e h = omega arith
to_host16 big_endian xs e h = refl
to_host16 little_endian xs e h = absurd (omega arith)

to_host32 :
    (order : ByteOrder) (xs : List ℕ)
    → length xs ≡ 4
    → IsBytes xs
    → to_host byteswap32 order (load order xs) ≡ of_be xs
unfolding byteswap32
to_host32 little_endian (a ∷ b ∷ c ∷ d ∷ []) e h = omega arith
to_host32 big_endian xs e h = refl
to_host32 little_endian xs e h = absurd (omega arith)

to_host64 :
    (order : ByteOrder) (xs : List ℕ)
    → length xs ≡ 8
    → IsBytes xs
    → to_host byteswap64 order (load order xs) ≡ of_be xs
unfolding byteswap64
to_host64 little_endian (a ∷ b ∷ c ∷ d ∷ e ∷ f ∷ g ∷ h ∷ []) l all = omega arith
to_host64 big_endian xs e h = refl
to_host64 little_endian xs e h = absurd (omega arith)

to_host-zero :
    (order : ByteOrder)
    → (to_host byteswap16 order 0 ≡ 0)
      × (to_host byteswap32 order 0 ≡ 0)
      × (to_host byteswap64 order 0 ≡ 0)
unfolding byteswap16 byteswap32 byteswap64
to_host-zero little_endian = (refl, refl, refl)
to_host-zero big_endian = (refl, refl, refl)

module _ (order : ByteOrder) (b : StaticBuffer) (bytes : IsBytes b.bytes) where
  abbrev window : ℕ → List ℕ
  window n = take n (drop b.offset b.bytes)

  window-IsBytes : (n : ℕ) → IsBytes (window n)
  window-IsBytes n = All-take IsByte n _ (All-drop IsByte b.offset b.bytes bytes)

  length-window : (n : ℕ) → b.offset + n < size b → length (window n) ≡ n
  length-window n h = length-take n _ (omega (arith, length-drop b.offset b.bytes))

  -- A read of `n` bytes that swaps them on a little-endian machine.
  read_swapped :
      (n : ℕ) (swap : ByteOrder → ℕ → ℕ)
      → ((xs : List ℕ) → length xs ≡ n → IsBytes xs → to_host swap order (load order xs) ≡ of_be xs)
      → to_host swap order 0 ≡ 0
      → b.offset + n < 2 ^ 64
      → Option.map (swap_read swap order) (read order n b)
        ≡ some (word_at n b.bytes b.offset, append_offset n b)
  read_swapped n swap swapped zeroed small = elim (Bool-cases (ltb (b.offset + n) (size b))) [
    | inl fits ↦
        rw (read-load order n b small, fits)
          (rw (swapped (window n) (length-window n (ltb→lt _ _ fits)) (window-IsBytes n)))
    | inr out ↦ rw (read-load order n b small, out) (rw zeroed)
  ]

  pub read_u16-word_at :
      b.offset + 2 < 2 ^ 64
      → read_u16 order b ≡ some (word_at 2 b.bytes b.offset, append_offset 2 b)
  unfolding read_u16
  read_u16-word_at = read_swapped 2 byteswap16 (to_host16 order) (to_host-zero order).0

  pub read_u32-word_at :
      b.offset + 4 < 2 ^ 64
      → read_u32 order b ≡ some (word_at 4 b.bytes b.offset, append_offset 4 b)
  unfolding read_u32
  read_u32-word_at = read_swapped 4 byteswap32 (to_host32 order) (to_host-zero order).1

  read_u64-word_at :
      b.offset + 8 < 2 ^ 64
      → read_u64 order b ≡ some (word_at 8 b.bytes b.offset, append_offset 8 b)
  unfolding read_u64
  read_u64-word_at = read_swapped 8 byteswap64 (to_host64 order) (to_host-zero order).2

load_one : (order : ByteOrder) (xs : List ℕ) → length xs ≡ 1 → load order xs ≡ of_be xs
load_one little_endian (a ∷ []) e = omega arith
load_one big_endian xs e = refl
load_one little_endian xs e = absurd (omega arith)

pub read_u8-word_at :
    (order : ByteOrder) (b : StaticBuffer)
    → b.offset + 1 < 2 ^ 64
    → read_u8 order b ≡ some (word_at 1 b.bytes b.offset, append_offset 1 b)
unfolding read_u8
read_u8-word_at order b small = elim (Bool-cases (ltb (b.offset + 1) (size b))) [
  | inl fits ↦
      let fits' = ltb→lt (b.offset + 1) (size b) fits in
      rw (read-load order 1 b small, fits)
        (rw (
          load_one order (take 1 (drop b.offset b.bytes))
            (length-take 1 _ (omega (arith, length-drop b.offset b.bytes)))))
  | inr out ↦ rw (read-load order 1 b small, out)
]

-- Where no offset wraps, each of the four reads, on a machine of either byte order, returns the
-- big-endian word at the offset, or 0 where that word does not end before the last byte of the
-- array, moves the offset past it, and reads nothing outside the array.
pub reads-word_at :
    (order : ByteOrder) (b : StaticBuffer)
    → IsBytes b.bytes
    → b.offset + 8 < 2 ^ 64
    → (read_u8 order b ≡ some (word_at 1 b.bytes b.offset, append_offset 1 b))
      × (read_u16 order b ≡ some (word_at 2 b.bytes b.offset, append_offset 2 b))
      × (read_u32 order b ≡ some (word_at 4 b.bytes b.offset, append_offset 4 b))
      × (read_u64 order b ≡ some (word_at 8 b.bytes b.offset, append_offset 8 b))
reads-word_at order b bytes small = (
  read_u8-word_at order b (omega arith),
  read_u16-word_at order b bytes (omega arith),
  read_u32-word_at order b bytes (omega arith),
  read_u64-word_at order b bytes (omega arith),
)
