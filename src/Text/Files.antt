-- ===== src/Text/Files.antt =====
-- `read_file` of src/iec_core/utils/helpers.cpp. A stream is the characters that are left in the
-- file, and none are where the file could not be opened.
use bpf_program.Base.{
  ℕ, zero, suc, ◌≤◌, ◌<◌, ◌≡◌, refl, ap, ◌∙◌, Option, none, some, List, [], ◌∷◌, ◌++◌, leb,
  if◌then◌else◌, length, take, drop, length-drop, arith, Bool-cases, inl, inr, true, false,
  take-drop,
}
use mathlib.Core.List.{append_assoc}

abbrev pub read_size : ℕ
read_size = 4096

module _ (count : ℕ) where
  -- The loop and the call of `append` behind it, at `out` and the stream. `read` fails where fewer
  -- than `count` characters are left, and takes these.
  unfoldable pub read_blocks : ℕ → List ℕ → List ℕ → Option (List ℕ)
  read_blocks zero out stream = none
  read_blocks (suc fuel) out stream =
      let more = read_blocks fuel (out ++ take count stream) (drop count stream) in
      if leb count (length stream) then more else some (out ++ take count stream)

take_short : (n : ℕ) (xs : List ℕ) → length xs < n → take n xs ≡ xs
take_short zero xs h = absurd (omega arith)
take_short (suc n) [] h = refl
take_short (suc n) (x ∷ xs) h = ap (◌∷◌ x) (take_short n xs (omega (arith, h)))

leb→lt : (a b : ℕ) → leb a b ≡ false → b < a
leb→lt a b h = ground arith

leb→le : (a b : ℕ) → leb a b ≡ true → a ≤ b
leb→le a b h = ground arith

read_blocks-append :
    (count fuel : ℕ) (out stream : List ℕ)
    → 0 < count
    → length stream < fuel
    → read_blocks count fuel out stream ≡ some (out ++ stream)
unfolding read_blocks
read_blocks-append count zero out stream pos enough = absurd (omega arith)
read_blocks-append count (suc fuel) out stream pos enough =
    elim (Bool-cases (leb count (length stream))) [
      | inl e ↦
          let le = leb→le count (length stream) e in
          rw e (
            read_blocks-append count fuel (out ++ take count stream) (drop count stream) pos
              (omega (arith, length-drop count stream, le, enough))
            ∙ ap some (
                append_assoc out (take count stream) (drop count stream)
                ∙ ap (λ l. out ++ l) (take-drop count stream)))
      | inr e ↦ rw e (ap (λ l. some (out ++ l)) (take_short count stream (leb→lt _ _ e)))
    ]

-- A block takes at least one character while the loop goes on.
unfoldable pub read_file : List ℕ → Option (List ℕ)
read_file content = read_blocks read_size (suc (length content)) [] content

-- The loop of `read_file` ends, and what is read is the whole content, of any length, in order.
pub read_file_total : (content : List ℕ) → read_file content ≡ some content
unfolding read_file
read_file_total content =
    read_blocks-append read_size (suc (length content)) [] content (omega arith) (omega arith)
