-- ===== src/FastFile.antt =====
-- `utils::FastFile` (include/iec_core/utils/fast_file.h, src/iec_core/utils/fast_file.cpp), over the
-- calls of stdio as operations on an unknown state. Closing is the destructor's.
pub mod Numbers
mod Tests
use bpf_program.Base.{
  ℕ, zero, suc, ◌+◌, ◌/◌, ◌%◌, Bool, Option, none, some, List, [], ◌∷◌, ◌++◌, ltb, if◌then◌else◌,
}
use bpf_program.Base.Int.{ℤ, pos, negsuc}
use bpf_program.Text.{c_str}

pub record Stdio (W : Type 0) : Type 0 where
  -- `fopen(name, "a")`, where `none` is NULL, `fseek(file, 0, SEEK_END)` and `fclose`
  pub fopen_append : List ℕ → W → Option ℕ × W
  pub fseek_end : ℕ → W → W
  pub fclose : ℕ → W → W
  -- Whether `fputs` does not give EOF.
  pub fputs : List ℕ → ℕ → W → Bool × W

-- The decimal digits of a number, on fuel.
unfoldable pub digits : ℕ → ℕ → List ℕ
digits zero n = []
digits (suc fuel) n =
    let front = digits fuel (n / 10) in
    if ltb n 10 then (b'0' + n) ∷ [] else front ++ ((b'0' + n % 10) ∷ [])

-- `std::to_string` of a signed or unsigned number, which has no more digits than it counts.
unfoldable pub to_string : ℤ → List ℕ
unfolding digits
to_string (pos n) = digits (suc n) n
to_string (negsuc n) = b'-' ∷ digits (suc (suc n)) (suc n)

module _ {W : Type 0} (io : Stdio W) where
  abbrev pub sought : Option ℕ × W → Option (ℕ × W)
  sought (none, w) = none
  sought (some file, w) = some (file, io.fseek_end file w)

  -- The constructor. A file that cannot be opened is sought with a null pointer, which is undefined.
  unfoldable pub new : List ℕ → W → Option (ℕ × W)
  new filename w = sought (io.fopen_append filename w)

  -- `write(const char *)`, at the characters in memory from the pointer on.
  unfoldable pub write_text : List ℕ → ℕ → W → Bool × W
  write_text text file w = io.fputs (c_str text) file w

  unfoldable pub write_char : ℕ → ℕ → W → Bool × W
  unfolding write_text
  write_char ch file w = write_text (ch ∷ 0 ∷ []) file w

  -- `c_str()` has a 0 behind the characters of the string.
  unfoldable pub write_string : List ℕ → ℕ → W → Bool × W
  unfolding write_text
  write_string text file w = write_text (text ++ (0 ∷ [])) file w

  unfoldable pub write_number : ℤ → ℕ → W → Bool × W
  unfolding write_string
  write_number number file w = write_string (to_string number ++ (10 ∷ [])) file w

  unfoldable pub close_file : ℕ → W → W
  close_file file w = io.fclose file w
